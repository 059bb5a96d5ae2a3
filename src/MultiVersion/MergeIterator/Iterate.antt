-- ===== src/MultiVersion/MergeIterator/Iterate.antt =====
-- A whole iteration of multiversion/mergeiterator.go: what a caller's loop visits, though every Valid, Key, Value and
-- Next reads values anew.
use melodiasdk_io_store.Prelude.{
  ℕ, zero, suc, ◌+◌, ◌<◌, ◌≡◌, refl, sym, ap, ◌∙◌, subst, inl, inr, Ordering, Bool, true, false,
  List, [], ◌∷◌, none, some, Result, ok, panic, arith, length, Bool-cases, if◌then◌else◌, if-false,
}
use melodiasdk_io_store.Bytes.{Bytes, Slice, is_eq}
use melodiasdk_io_store.Bytes.Order.{compare_dir, compare_dir_laws, direction}
use melodiasdk_io_store.Method.{Method}
use melodiasdk_io_store.Sorted.{find-Above, IsSorted}
use melodiasdk_io_store.Iterator.{Iter, IsNonNil}
use melodiasdk_io_store.CacheKv.Merge
use melodiasdk_io_store.CacheKv.Merge.{Side, at_parent, at_cache, at_both}
use melodiasdk_io_store.CacheKv.Merge.Settle.{overlay, IsSettled, Settles}
use melodiasdk_io_store.CacheKv.Merge.Collect.{
  IsMerged, IsStep, step_lem, IsMerged-step, IsMerged-of-Settles, IsMerged-end,
}
use melodiasdk_io_store.MultiVersion.MergeIterator.{
  MvsMergeIterator, side, pick_key, advance, skip_until_exists_or_invalid, assert_valid, settle,
  next, key, value, pick_value, collect,
}
use melodiasdk_io_store.MultiVersion.MergeIterator.Simulation.{
  filled, length-filled, AllFit, IsSteady, settle_lem, settled_lem,
}

is_eq-eq : (o : Ordering) → is_eq o ≡ true → o ≡ Ordering.eq
is_eq-eq Ordering.lt h = absurd (ground arith)
is_eq-eq Ordering.eq h = refl
is_eq-eq Ordering.gt h = absurd (ground arith)

module _ (Fits : Bytes → Type 0) (view : Bytes → Slice) where
  side-filled :
      (asc : Bool) (p : Iter) (c : List Bytes) → Merge.side asc p (filled view c) ≡ side asc p c
  side-filled asc [] c = refl
  side-filled asc (x ∷ p) [] = refl
  side-filled asc ((kp, vp) ∷ p) (kc ∷ c) = refl

  pick_key-filled :
      (sd : Side) (p : Iter) (c : List Bytes)
      → Merge.pick_key sd p (filled view c) ≡ pick_key sd p c
  pick_key-filled at_cache p [] = refl
  pick_key-filled at_cache p (k ∷ c) = refl
  pick_key-filled at_parent p c = refl
  pick_key-filled at_both p c = refl

  -- The positions after a step.
  abbrev or_none : {A : Type 0} → A → Result A → A
  or_none d (ok a) = a
  or_none d (panic e) = d

  advance-filled :
      (sd : Side) (p : Iter) (c : List Bytes) (p' d : Iter)
      → AllFit Fits c
      → Merge.advance sd p (filled view c) ≡ ok (p', d)
      → (c' : List Bytes) × (advance sd p c ≡ ok (p', c')) × (d ≡ filled view c') × AllFit Fits c'
  advance-filled at_cache p [] p' d h e = absurd (ground (arith, e))
  advance-filled at_cache p (k ∷ c) p' d h e =
      let eq = ap (or_none ([], [])) e in (c, ap (λ x. ok (x.0, c)) eq, sym (ap (λ x. x.1) eq), h.1)
  advance-filled at_parent [] c p' d h e = absurd (ground (arith, e))
  advance-filled at_parent (x ∷ p) c p' d h e =
      let eq = ap (or_none ([], [])) e in (c, ap (λ x. ok (x.0, c)) eq, sym (ap (λ x. x.1) eq), h)
  advance-filled at_both [] c p' d h e = absurd (ground (arith, e))
  advance-filled at_both (x ∷ p) [] p' d h e = absurd (ground (arith, e))
  advance-filled at_both (x ∷ p) (k ∷ c) p' d h e =
      let eq = ap (or_none ([], [])) e in (c, ap (λ x. ok (x.0, c)) eq, sym (ap (λ x. x.1) eq), h.1)

  -- What the merged iterators show is in the view.
  abbrev pub Agrees : Bool → Iter → Iter → Type 0
  Agrees asc p d = (j w : Bytes) → overlay asc p d j ≡ some w → view j ≡ some w

  pub Agrees-Settles :
      (asc v : Bool) (p d p' d' : Iter)
      → Agrees asc p d
      → Settles asc p d v p' d'
      → Agrees asc p' d'
  Agrees-Settles asc v p d p' d' a t j w e = a j w (sym (t.same j) ∙ e)

  pub overlay_self :
      (asc : Bool) (p d p' d' : Iter) (k w : Bytes)
      → IsStep asc p d k w p' d'
      → overlay asc p d k ≡ some w
  overlay_self asc p d p' d' k w s =
      s.same k
      ∙ ap (λ o. if is_eq o then some w else overlay asc p' d' k) (compare_dir_laws asc k k).0

  pub Agrees-IsStep :
      (asc : Bool) (p d p' d' : Iter) (k w : Bytes)
      → Agrees asc p d
      → IsStep asc p d k w p' d'
      → Agrees asc p' d'
  Agrees-IsStep asc p d p' d' k w a s j x e = elim (Bool-cases (is_eq (compare_dir asc j k))) [
    | inl same ↦
        let eq : j ≡ k = (compare_dir_laws asc j k).1 (is_eq-eq _ same) in
        absurd (hidden (subst (λ i. overlay asc p' d' i ≡ some x) eq e))
    | inr other ↦ a j x (s.same j ∙ if-false (is_eq (compare_dir asc j k)) _ _ other ∙ e)
  ]
    where
      hidden : overlay asc p' d' k ≡ some x → ⊥
      hidden h = ground (
        arith,
        h,
        find-Above (direction asc) k d' s.above_c,
        find-Above (direction asc) k p' s.above_p,
      )

module _ (S : Type 0) (read : Bytes → Method S Slice) (note : Bytes → Slice → S → S)
    (Keeps : S → Type 0) (Fits : Bytes → Type 0) (view : Bytes → Slice)
    (steady : IsSteady S read note Keeps Fits view) where
  abbrev pub at : Bool → Iter → List Bytes → MvsMergeIterator
  at asc p c = record { parent = p; cache = c; ascending = asc }

  -- One call of skipUntilExistsOrInvalid of the iterator.
  pub record Valids (asc : Bool) (p : Iter) (c : List Bytes) (s : S) : Type 0 where
    pub valid : Bool
    pub parent : Iter
    pub keys : List Bytes
    pub state : S
    pub runs :
        skip_until_exists_or_invalid S read note (at asc p c) s
        ≡ (ok (valid, at asc parent keys), state)
    pub fit : AllFit Fits keys
    pub keeps : Keeps state

  pub valid_lem :
      (asc : Bool) (p : Iter) (c : List Bytes) (s : S)
      → IsSorted (direction asc) p
      → IsSorted (direction asc) (filled view c)
      → AllFit Fits c
      → Keeps s
      → (r : Valids asc p c s) × Settles asc p (filled view c) r.valid r.parent (filled view r.keys)
  unfolding skip_until_exists_or_invalid
  valid_lem asc p c s sp sc h k =
      let (r, t) = settle_lem S read note Keeps Fits view steady asc p c s sp sc h k in
      (
        record {
          valid = r.valid;
          parent = r.parent;
          keys = r.keys;
          state = r.state;
          runs = rw (r.runs);
          fit = r.fit;
          keeps = r.keeps;
        },
        t,
      )

  -- A settled position stays where it is.
  record Stays (asc v : Bool) (p : Iter) (c : List Bytes) (s : S) : Type 0 where
    state : S
    runs : skip_until_exists_or_invalid S read note (at asc p c) s ≡ (ok (v, at asc p c), state)
    keeps : Keeps state

  stays_lem :
      (asc v : Bool) (p : Iter) (c : List Bytes) (s : S)
      → IsSettled asc v p (filled view c)
      → AllFit Fits c
      → Keeps s
      → Stays asc v p c s
  unfolding skip_until_exists_or_invalid
  stays_lem asc v p c s settled h k =
      let (s', e, k') = settled_lem S read note Keeps Fits view steady asc v p c s settled h k in
      record { state = s'; runs = rw e; keeps = k' }

  -- The first two lines of Next, Key and Value leave a valid settled position.
  settle-stays :
      (asc : Bool) (p : Iter) (c : List Bytes) (s : S)
      → IsSettled asc true p (filled view c)
      → AllFit Fits c
      → Keeps s
      → (s' : S) × (settle S read note (at asc p c) s ≡ (ok (at asc p c), s')) × Keeps s'
  unfolding settle assert_valid
  settle-stays asc p c s settled h k =
      let a = stays_lem asc true p c s settled h k in
      let b = stays_lem asc true p c a.state settled h a.keeps in
      (b.state, rw (a.runs, b.runs), b.keeps)

  pick_value-step :
      (sd : Side) (p : Iter) (c : List Bytes) (k w : Bytes) (s : S)
      → Merge.pick_key sd p (filled view c) ≡ ok k
      → Merge.pick_value sd p (filled view c) ≡ ok (some w)
      → view k ≡ some w
      → AllFit Fits c
      → Keeps s
      → (s' : S) × (pick_value S read note sd p c s ≡ (ok (some w), s')) × Keeps s'
  pick_value-step at_cache p [] k w s ek ev a h keep = absurd (ground (arith, ek))
  pick_value-step at_cache p (j ∷ c) k w s ek ev a h keep =
      let (s', e, keep') = steady.reads j s h.0 keep in (s', e ∙ ap (λ x. (x, s')) ev, keep')
  pick_value-step at_both p [] k w s ek ev a h keep = absurd (ground (arith, ev))
  pick_value-step at_both p (j ∷ c) k w s ek ev a h keep =
      let (s', e, keep') = steady.reads j s h.0 keep in (s', e ∙ ap (λ x. (x, s')) ev, keep')
  pick_value-step at_parent [] c k w s ek ev a h keep = absurd (ground (arith, ek))
  pick_value-step at_parent ((j, v) ∷ p) c k w s ek ev a h keep =
      let ej : j ≡ k = ap (or_none Fits view []) ek in
      let same : view j ≡ v = ap view ej ∙ a ∙ sym (ap (or_none Fits view none) ev) in
      (
        note j v s,
        ap (λ x. (x, note j v s)) ev,
        subst (λ x. Keeps (note j x s)) same (steady.notes j s keep),
      )

  -- Key, Value and Next at a settled position, whose step `t` the other iterator has.
  module _ (asc : Bool) (p : Iter) (c : List Bytes) (k w : Bytes) (p' d : Iter)
      (settled : IsSettled asc true p (filled view c)) (h : AllFit Fits c)
      (t : IsStep asc p (filled view c) k w p' d) where
    pub key_step :
        (s : S)
        → Keeps s
        → (s' : S) × (key S read note (at asc p c) s ≡ (ok (k, at asc p c), s')) × Keeps s'
    unfolding key
    key_step s keep =
        let (s', e, keep') = settle-stays asc p c s settled h keep in
        let picked : pick_key (side asc p c) p c ≡ ok k =
          sym (pick_key-filled Fits view (side asc p c) p c)
          ∙ ap (λ x. Merge.pick_key x p (filled view c)) (sym (side-filled Fits view asc p c))
          ∙ t.key_lem in
        (s', rw (e, picked), keep')

    value_step :
        (s : S)
        → view k ≡ some w
        → Keeps s
        → (s' : S) × (value S read note (at asc p c) s ≡ (ok (some w, at asc p c), s')) × Keeps s'
    unfolding value
    value_step s shown keep =
        let (s1, e, keep1) = settle-stays asc p c s settled h keep in
        let same = sym (side-filled Fits view asc p c) in
        let (s2, e2, keep2) =
          pick_value-step (side asc p c) p c k w s1
            (ap (λ x. Merge.pick_key x p (filled view c)) same ∙ t.key_lem)
            (ap (λ x. Merge.pick_value x p (filled view c)) same ∙ t.value_lem) shown h keep1 in
        (s2, rw (e, e2), keep2)

    pub next_step :
        (s : S)
        → Keeps s
        → (s' : S) × (c' : List Bytes) × (next S read note (at asc p c) s ≡ (ok (at asc p' c'), s'))
          × (d ≡ filled view c')
          × AllFit Fits c'
          × Keeps s'
    unfolding next
    next_step s keep =
        let (s', e, keep') = settle-stays asc p c s settled h keep in
        let (c', moved, same, fit) = advance-filled Fits view (side asc p c) p c p' d h (
          ap (λ x. Merge.advance x p (filled view c)) (sym (side-filled Fits view asc p c))
          ∙ t.advance_lem) in
        (s', c', rw (e, moved), same, fit, keep')

  collect_step :
      (f : ℕ) (asc : Bool) (p : Iter) (c : List Bytes) (s : S) (v : Valids asc p c s) (k w : Bytes)
      (p' : Iter) (c' : List Bytes) (s1 s2 s3 s4 : S) (r : Iter)
      → v.valid ≡ true
      → key S read note (at asc v.parent v.keys) v.state ≡ (ok (k, at asc v.parent v.keys), s1)
      → value S read note (at asc v.parent v.keys) s1 ≡ (ok (some w, at asc v.parent v.keys), s2)
      → next S read note (at asc v.parent v.keys) s2 ≡ (ok (at asc p' c'), s3)
      → collect S read note f (at asc p' c') s3 ≡ (ok r, s4)
      → collect S read note (suc f) (at asc p c) s ≡ (ok ((k, some w) ∷ r), s4)
  unfolding collect
  collect_step f asc p c s v k w p' c' s1 s2 s3 s4 r on ek ev en er =
      rw (v.runs, on, ek, ev, en, er)

  collect_end :
      (f : ℕ) (asc : Bool) (p : Iter) (c : List Bytes) (s : S) (v : Valids asc p c s)
      → v.valid ≡ false
      → collect S read note (suc f) (at asc p c) s ≡ (ok [], v.state)
  unfolding collect
  collect_end f asc p c s v off = rw (v.runs, off)

  -- For a parent and a cache that are sorted in the direction of the iteration, a parent without nil values, cache keys
  -- that fit, and a merge that shows only what is in the view: a caller's loop over the merged iterator ends within its
  -- fuel and without a panic, and visits, in order, exactly the keys that have a value where the values read for the
  -- cache keys shadow the parent, each once and with that value. The state still gives the same values.
  pub mvs_iteration :
      (f : ℕ) (asc : Bool) (p : Iter) (c : List Bytes) (s : S)
      → length p + length c < f
      → IsSorted (direction asc) p
      → IsSorted (direction asc) (filled view c)
      → IsNonNil p
      → AllFit Fits c
      → Agrees Fits view asc p (filled view c)
      → Keeps s
      → (r : Iter) × (s' : S) × (collect S read note f
            (record { parent = p; cache = c; ascending = asc })
            s
          ≡ (ok r, s'))
        × IsMerged asc p (filled view c) r
        × Keeps s'
  mvs_iteration zero asc p c s lt sp sc n h a keep = absurd (omega arith)
  mvs_iteration (suc f) asc p c s lt sp sc n h a keep =
      let (v, t) = valid_lem asc p c s sp sc h keep in
      elim (Bool-cases v.valid) [
        | inl on ↦
            let settled = subst (λ b. IsSettled asc b v.parent (filled view v.keys)) on t.settled in
            let (k, w, p1, d1, step) =
              step_lem asc v.parent (filled view v.keys) settled t.sorted_p t.sorted_c
                (t.non_nil n) in
            let agrees =
              Agrees-Settles Fits view asc v.valid p (filled view c) v.parent (filled view v.keys) a
                t in
            let shown =
              agrees k w
                (overlay_self Fits view asc v.parent (filled view v.keys) p1 d1 k w step) in
            let (s1, ek, keep1) =
              key_step asc v.parent v.keys k w p1 d1 settled v.fit step v.state v.keeps in
            let (s2, ev, keep2) =
              value_step asc v.parent v.keys k w p1 d1 settled v.fit step s1 shown keep1 in
            let (s3, c1, en, same, fit, keep3) =
              next_step asc v.parent v.keys k w p1 d1 settled v.fit step s2 keep2 in
            let step' = subst (λ d. IsStep asc v.parent (filled view v.keys) k w p1 d) same step in
            let (r, s4, er, m, keep4) =
              mvs_iteration f asc p1 c1 s3
                (omega (
                  arith,
                  step'.le,
                  t.le_p,
                  t.le_c,
                  length-filled view c1,
                  length-filled view c,
                  length-filled view v.keys,
                ))
                step'.sorted_p step'.sorted_c step'.non_nil fit
                (Agrees-IsStep Fits view asc v.parent (filled view v.keys) p1 (filled view c1) k w
                  agrees step')
                keep3 in
            (
              (k, some w) ∷ r,
              s4,
              collect_step f asc p c s v k w p1 c1 s1 s2 s3 s4 r on ek ev en er,
              IsMerged-of-Settles asc t (IsMerged-step asc {r = r} step' m),
              keep4,
            )
        | inr off ↦ (
          [],
          v.state,
          collect_end f asc p c s v off,
          IsMerged-of-Settles asc t (
              IsMerged-end asc v.parent (filled view v.keys)
                (subst (λ b. IsSettled asc b v.parent (filled view v.keys)) off t.settled)),
          v.keeps,
        )
      ]
