-- ===== src/MultiVersion/MergeIterator/Simulation.antt =====
-- The loops of multiversion/mergeiterator.go against those of cachekv/internal/mergeiterator.go: where the values that
-- are read stay the same, the former settles where the latter does.
use melodiasdk_io_store.Prelude.{
  ℕ, zero, suc, ◌≡◌, refl, sym, ap, ◌∙◌, subst, inl, inr, Ordering-cases, Bool, true, List, [], ◌∷◌,
  none, some, Option-cases, Result, ok, panic, Fault, arith, length, Bool-cases,
}
use melodiasdk_io_store.Bytes.{Bytes, Slice}
use melodiasdk_io_store.Bytes.Order.{compare_dir, direction}
use melodiasdk_io_store.Method.{Method, continue}
use melodiasdk_io_store.Sorted.{IsSorted}
use melodiasdk_io_store.Iterator.{Iter, is_valid}
use melodiasdk_io_store.CacheKv.Merge
use melodiasdk_io_store.CacheKv.Merge.{before}
use melodiasdk_io_store.CacheKv.Merge.Settle.{Settles, skip_until_lem, IsSettled}
use melodiasdk_io_store.MultiVersion.MergeIterator.{has_key, skip_cache_deletes, skip_until}

-- The keys with the values that a view has for them.
abbrev pub filled : (Bytes → Slice) → List Bytes → Iter
filled view [] = []
filled view (k ∷ c) = (k, view k) ∷ filled view c

pub length-filled : (view : Bytes → Slice) (c : List Bytes) → length (filled view c) ≡ length c
length-filled view [] = refl
length-filled view (k ∷ c) = ap suc (length-filled view c)

pub is_valid-filled : (view : Bytes → Slice) (c : List Bytes) → is_valid (filled view c) ≡ has_key c
is_valid-filled view [] = refl
is_valid-filled view (k ∷ c) = refl

abbrev pub AllFit : (Bytes → Type 0) → List Bytes → Type 0
AllFit Fits [] = Unit
AllFit Fits (k ∷ c) = Fits k × AllFit Fits c

-- Reading a key that fits gives what the view has, and noting a value of the view changes nothing of that.
pub record IsSteady (S : Type 0) (read : Bytes → Method S Slice) (note : Bytes → Slice → S → S)
    (Keeps : S → Type 0) (Fits : Bytes → Type 0) (view : Bytes → Slice) : Type 0 where
  pub reads :
      (k : Bytes) (s : S) → Fits k → Keeps s → (s' : S) × (read k s ≡ (ok (view k), s')) × Keeps s'
  pub notes : (k : Bytes) (s : S) → Keeps s → Keeps (note k (view k) s)

abbrev keys_of : Iter → List Bytes
keys_of [] = []
keys_of ((k, v) ∷ l) = k ∷ keys_of l

keys_of-filled : (view : Bytes → Slice) (c : List Bytes) → keys_of (filled view c) ≡ c
keys_of-filled view [] = refl
keys_of-filled view (k ∷ c) = ap (λ l. k ∷ l) (keys_of-filled view c)

-- The other iterator does not move from a settled position.
skip_until-settled :
    (f : ℕ) (asc v : Bool) (p d : Iter)
    → IsSettled asc v p d
    → Merge.skip_until (suc f) asc p d ≡ ok (v, p, d)
unfolding Merge.skip_until Merge.skip_cache_deletes
skip_until-settled f asc v [] [] h = rw h
skip_until-settled f asc v [] ((kc, none) ∷ d) h = absurd h
skip_until-settled f asc v [] ((kc, some w) ∷ d) h = rw h
skip_until-settled f asc v (x ∷ p) [] h = rw h
skip_until-settled f asc v ((kp, vp) ∷ p) ((kc, none) ∷ d) h = rw (Merge.skip_until, h.0, h.1)
skip_until-settled f asc v ((kp, vp) ∷ p) ((kc, some w) ∷ d) h =
    elim (Ordering-cases (compare_dir asc kp kc)) [
      | inl lt ↦ rw (Merge.skip_until, h, lt)
      | inr (inl eq) ↦ rw (Merge.skip_until, h, eq)
      | inr (inr gt) ↦ rw (Merge.skip_until, h, gt)
    ]

module _ (S : Type 0) (read : Bytes → Method S Slice) (note : Bytes → Slice → S → S)
    (Keeps : S → Type 0) (Fits : Bytes → Type 0) (view : Bytes → Slice)
    (steady : IsSteady S read note Keeps Fits view) where
  -- What follows a read that gave a value.
  pub after :
      {A : Type 0} {r : Result Slice × S} {v : Slice} {s' : S} (f : Slice → Method S A)
      → r ≡ (ok v, s')
      → continue r.0 r.1 f ≡ f v s'
  after f e = ap (λ x. continue x.0 x.1 f) e

  -- The keys that are left fit and are those of the other iterator.
  record Skips (u : Slice) (asc : Bool) (c : List Bytes) (s : S) : Type 0 where
    keys : List Bytes
    state : S
    runs : skip_cache_deletes S read note asc u c s ≡ (ok keys, state)
    same : Merge.skip_cache_deletes asc u (filled view c) ≡ filled view keys
    fit : AllFit Fits keys
    keeps : Keeps state

  skip_cache_deletes-Skips :
      (u : Slice) (asc : Bool) (c : List Bytes) (s : S) → AllFit Fits c → Keeps s → Skips u asc c s
  unfolding skip_cache_deletes Merge.skip_cache_deletes
  skip_cache_deletes-Skips u asc [] s h p = record {
    keys = [];
    state = s;
    runs = refl;
    same = refl;
    fit = tt;
    keeps = p;
  }
  skip_cache_deletes-Skips u asc (k ∷ c) s h p =
      let (s', e, p') = steady.reads k s h.0 p in
      elim (Option-cases (view k)) [
        | inr (w, some_there) ↦ record {
          keys = k ∷ c;
          state = s';
          runs = rw (e, some_there);
          same = rw some_there;
          fit = h;
          keeps = p';
        }
        | inl deleted ↦ elim (Bool-cases (before asc k u)) [
          | inl skipped ↦
              let rest = skip_cache_deletes-Skips u asc c s' h.1 p' in
              record {
                keys = rest.keys;
                state = rest.state;
                runs = rw (e, deleted, skipped, rest.runs);
                same = rw (deleted, skipped, rest.same);
                fit = rest.fit;
                keeps = rest.keeps;
              }
          | inr stays ↦ record {
            keys = k ∷ c;
            state = s';
            runs = rw (e, deleted, stays);
            same = rw (deleted, stays);
            fit = h;
            keeps = p';
          }
        ]
      ]

  -- The two loops end alike.
  data Same : Result (Bool × Iter × Iter) → Result (Bool × Iter × List Bytes) × S → Type 0 where
    settles :
        (v : Bool) (p d : Iter) (keys : List Bytes) (s : S)
        → d ≡ filled view keys
        → AllFit Fits keys
        → Keeps s
        → Same (ok (v, p, d)) (ok (v, p, keys), s)
    fails : (e : Fault) (s : S) → Same (panic e) (panic e, s)

  Same-end :
      (asc : Bool) (c : List Bytes) (s : S) (d : Skips none asc c s)
      → Same
          (ok (is_valid (filled view d.keys), [], filled view d.keys))
          (ok (has_key d.keys, [], d.keys), d.state)
  Same-end asc c s d =
      subst
        (λ v.
          Same (ok (is_valid (filled view d.keys), [], filled view d.keys))
            (ok (v, [], d.keys), d.state))
        (is_valid-filled view d.keys) (settles _ [] _ d.keys d.state refl d.fit d.keeps)

  skip_until-Same :
      (f : ℕ) (asc : Bool) (p : Iter) (c : List Bytes) (s : S)
      → AllFit Fits c
      → Keeps s
      → Same (Merge.skip_until f asc p (filled view c)) (skip_until S read note f asc p c s)
  unfolding skip_until Merge.skip_until
  skip_until-Same zero asc p c s h k = fails _ s
  skip_until-Same (suc f) asc [] c s h k =
      let d = skip_cache_deletes-Skips none asc c s h k in rw (d.runs, d.same) (Same-end asc c s d)
  skip_until-Same (suc f) asc ((kp, vp) ∷ p) [] s h k = settles true _ [] [] s refl tt k
  skip_until-Same (suc f) asc ((kp, vp) ∷ p) (kc ∷ c) s h k =
      let (s', e, k') = steady.reads kc s h.0 k in
      elim (Ordering-cases (compare_dir asc kp kc)) [
        | inl lt ↦ rw (skip_until, Merge.skip_until, lt) (settles true _ _ (kc ∷ c) s refl h k)
        | inr (inl eq) ↦ elim (Option-cases (view kc)) [
          | inl deleted ↦
              rw (skip_until, Merge.skip_until, eq, e, deleted)
                (skip_until-Same f asc p c s' h.1 k')
          | inr (w, there) ↦
              rw (skip_until, Merge.skip_until, eq, e, there)
                (settles true _ _ (kc ∷ c) s' (rw there) h k')
        ]
        | inr (inr gt) ↦ elim (Option-cases (view kc)) [
          | inl deleted ↦
              let d = skip_cache_deletes-Skips (some kp) asc (kc ∷ c) s' h k' in
              let gone : Merge.skip_cache_deletes asc (some kp) ((kc, none) ∷ filled view c)
                  ≡ filled view d.keys =
                ap (λ v. Merge.skip_cache_deletes asc (some kp) ((kc, v) ∷ filled view c))
                  (sym deleted)
                ∙ d.same in
              rw (skip_until, Merge.skip_until, gt, e, deleted, d.runs, gone)
                (skip_until-Same f asc ((kp, vp) ∷ p) d.keys d.state d.fit d.keeps)
          | inr (w, there) ↦
              rw (skip_until, Merge.skip_until, gt, e, there)
                (settles true _ _ (kc ∷ c) s' (rw there) h k')
        ]
      ]

  -- What one call of skipUntilExistsOrInvalid gives.
  pub record Settled (asc : Bool) (p : Iter) (c : List Bytes) (s : S) : Type 0 where
    pub valid : Bool
    pub parent : Iter
    pub keys : List Bytes
    pub state : S
    pub runs : skip_until S read note (suc (length c)) asc p c s ≡ (ok (valid, parent, keys), state)
    pub fit : AllFit Fits keys
    pub keeps : Keeps state

  Settled-Same :
      (asc : Bool) (p : Iter) (c : List Bytes) (s : S) (v : Bool) (p' d : Iter)
      (x : Result (Bool × Iter × List Bytes) × S)
      → Same (ok (v, p', d)) x
      → skip_until S read note (suc (length c)) asc p c s ≡ x
      → (r : Settled asc p c s) × (r.valid ≡ v) × (r.parent ≡ p') × (d ≡ filled view r.keys)
  Settled-Same asc p c s _ _ _ _ (settles v p' d keys t same h k) e = (
    record { valid = v; parent = p'; keys = keys; state = t; runs = e; fit = h; keeps = k },
    refl,
    refl,
    same,
  )

  -- From any sorted position the loop ends within its fuel, at a settled one that shows the same.
  pub settle_lem :
      (asc : Bool) (p : Iter) (c : List Bytes) (s : S)
      → IsSorted (direction asc) p
      → IsSorted (direction asc) (filled view c)
      → AllFit Fits c
      → Keeps s
      → (r : Settled asc p c s) × Settles asc p
          (filled view c)
          r.valid
          r.parent
          (filled view r.keys)
  settle_lem asc p c s sp sc h k =
      let (v, p', d, e, t) =
        skip_until_lem asc (suc (length c)) p (filled view c) (omega (arith, length-filled view c))
          sp sc in
      let (r, ev, ep, ed) =
        Settled-Same asc p c s v p' d _
          (subst (λ x. Same x (skip_until S read note (suc (length c)) asc p c s)) e
            (skip_until-Same (suc (length c)) asc p c s h k))
          refl in
      (
        r,
        subst (λ x. Settles asc p (filled view c) x r.parent (filled view r.keys)) (sym ev)
            (subst (λ x. Settles asc p (filled view c) v x (filled view r.keys)) (sym ep)
              (subst (λ x. Settles asc p (filled view c) v p' x) ed t)),
      )

  -- A settled position stays where it is.
  pub settled_lem :
      (asc v : Bool) (p : Iter) (c : List Bytes) (s : S)
      → IsSettled asc v p (filled view c)
      → AllFit Fits c
      → Keeps s
      → (s' : S) × (skip_until S read note (suc (length c)) asc p c s ≡ (ok (v, p, c), s'))
        × Keeps s'
  settled_lem asc v p c s settled h k =
      let (r, ev, ep, ed) =
        Settled-Same asc p c s v p (filled view c) _
          (subst (λ x. Same x (skip_until S read note (suc (length c)) asc p c s))
            (skip_until-settled (length c) asc v p (filled view c) settled)
            (skip_until-Same (suc (length c)) asc p c s h k))
          refl in
      let ek : r.keys ≡ c =
        sym (keys_of-filled view r.keys) ∙ ap keys_of (sym ed) ∙ keys_of-filled view c in
      (
        r.state,
        r.runs
            ∙ ap (λ x. (ok (x, r.parent, r.keys), r.state)) ev
            ∙ ap (λ x. (ok (v, x, r.keys), r.state)) ep
            ∙ ap (λ x. (ok (v, p, x), r.state)) ek,
        r.keeps,
      )
