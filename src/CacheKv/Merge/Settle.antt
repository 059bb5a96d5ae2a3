-- ===== src/CacheKv/Merge/Settle.antt =====
-- What the loops of cachekv/internal/mergeiterator.go that skip deleted entries leave unchanged, and
-- the position in which they stop.
use melodiasdk_io_store.Prelude.{
  ℕ, zero, suc, ◌≤◌, ◌<◌, Ordering, Bool, true, false, ◌≡◌, refl, ◌∙◌, [], ◌∷◌, none, some, ok,
  arith, length, inl, inr, Bool-cases, Ordering-cases, sym,
}
use melodiasdk_io_store.Bytes.{Bytes, Slice}
use melodiasdk_io_store.Bytes.Order.{compare_dir, compare_dir_laws, direction}
use melodiasdk_io_store.Sorted.{find, Above, IsSorted, find-Above, find_of_lt-head}
use melodiasdk_io_store.Iterator.{Iter, IsNonNil, is_valid, join}
use melodiasdk_io_store.CacheKv.Merge.{skip_cache_deletes, skip_until, before}

-- The value of a key where the entries of `c` shadow those of `p`.
abbrev pub overlay : Bool → Iter → Iter → Bytes → Slice
overlay asc p c k = elim (find (direction asc) k c) [
  | none ↦ join (find (direction asc) k p)
  | some v ↦ v
]

module _ (asc : Bool) where
  pub skip-length : (u : Slice) (c : Iter) → length (skip_cache_deletes asc u c) ≤ length c
  unfolding skip_cache_deletes
  skip-length u [] = omega arith
  skip-length u ((k, some v) ∷ c) = omega arith
  skip-length u ((k, none) ∷ c) = ground (arith, skip-length u c)

  pub skip-Above :
      (u : Slice) (k : Bytes) (c : Iter)
      → Above (direction asc) k c
      → Above (direction asc) k (skip_cache_deletes asc u c)
  unfolding skip_cache_deletes
  skip-Above u k [] a = a
  skip-Above u k ((j, some v) ∷ c) a = a
  skip-Above u k ((j, none) ∷ c) a = elim (Bool-cases (before asc j u)) [
    | inl e ↦ rw e (skip-Above u k c a.1)
    | inr e ↦ rw e a
  ]

  pub skip-IsSorted :
      (u : Slice) (c : Iter)
      → IsSorted (direction asc) c
      → IsSorted (direction asc) (skip_cache_deletes asc u c)
  unfolding skip_cache_deletes
  skip-IsSorted u [] s = s
  skip-IsSorted u ((j, some v) ∷ c) s = s
  skip-IsSorted u ((j, none) ∷ c) s = elim (Bool-cases (before asc j u)) [
    | inl e ↦ rw e (skip-IsSorted u c s.1)
    | inr e ↦ rw e s
  ]

  overlay-delete :
      (p : Iter) (j : Bytes) (c : Iter)
      → Above (direction asc) j c
      → find (direction asc) j p ≡ none
      → (k : Bytes) → overlay asc p ((j, none) ∷ c) k ≡ overlay asc p c k
  unfolding find
  overlay-delete p j c a h k =
      ground (arith, (compare_dir_laws asc k j).1, find-Above (direction asc) j c a)

  -- Skipping deletions of keys that the parent does not have changes no value.
  pub skip-overlay :
      (u : Slice) (p c : Iter)
      → IsSorted (direction asc) c
      → ((j : Bytes) → before asc j u ≡ true → find (direction asc) j p ≡ none)
      → (k : Bytes) → overlay asc p (skip_cache_deletes asc u c) k ≡ overlay asc p c k
  unfolding skip_cache_deletes
  skip-overlay u p [] s h k = refl
  skip-overlay u p ((j, some v) ∷ c) s h k = refl
  skip-overlay u p ((j, none) ∷ c) s h k = elim (Bool-cases (before asc j u)) [
    | inl e ↦ rw e (skip-overlay u p c s.1 h k ∙ sym (overlay-delete p j c s.0 (h j e) k))
    | inr e ↦ rw e
  ]

  -- A valid flag that is set exactly if there is a current entry, and that entry is not a deletion.
  abbrev pub IsSettled : Bool → Iter → Iter → Type 0
  IsSettled v [] [] = v ≡ false
  IsSettled v [] ((kc, none) ∷ c) = ⊥
  IsSettled v [] ((kc, some w) ∷ c) = v ≡ true
  IsSettled v (x ∷ p) [] = v ≡ true
  IsSettled v ((kp, vp) ∷ p) ((kc, none) ∷ c) = (v ≡ true) × (compare_dir asc kp kc ≡ Ordering.lt)
  IsSettled v ((kp, vp) ∷ p) ((kc, some w) ∷ c) = v ≡ true

  skip-IsSettled :
      (c : Iter)
      → IsSettled (is_valid (skip_cache_deletes asc none c)) [] (skip_cache_deletes asc none c)
  unfolding skip_cache_deletes
  skip-IsSettled [] = refl
  skip-IsSettled ((j, some v) ∷ c) = refl
  skip-IsSettled ((j, none) ∷ c) = skip-IsSettled c

  -- What holds of the iterators `p'` and `c'`, and the flag, that the loop leaves for `p` and `c`.
  pub record Settles (p c : Iter) (v : Bool) (p' c' : Iter) : Type 0 where
    pub settled : IsSettled v p' c'
    pub sorted_p : IsSorted (direction asc) p'
    pub sorted_c : IsSorted (direction asc) c'
    pub non_nil : IsNonNil p → IsNonNil p'
    pub le_p : length p' ≤ length p
    pub le_c : length c' ≤ length c
    pub above :
        (k : Bytes)
        → Above (direction asc) k p
        → Above (direction asc) k c
        → Above (direction asc) k p' × Above (direction asc) k c'
    pub same : (k : Bytes) → overlay asc p' c' k ≡ overlay asc p c k

  Settles-refl :
      {v : Bool} {p c : Iter}
      → IsSettled v p c
      → IsSorted (direction asc) p
      → IsSorted (direction asc) c
      → Settles p c v p c
  Settles-refl st sp sc = record {
    settled = st;
    sorted_p = sp;
    sorted_c = sc;
    non_nil = λ h. h;
    le_p = omega arith;
    le_c = omega arith;
    above = λ k hp hc. (hp, hc);
    same = λ k. refl;
  }

  overlay-both :
      (kp kc : Bytes) (p c : Iter) (vp : Slice)
      → compare_dir asc kp kc ≡ Ordering.eq
      → Above (direction asc) kp p
      → Above (direction asc) kc c
      → (k : Bytes) → overlay asc p c k ≡ overlay asc ((kp, vp) ∷ p) ((kc, none) ∷ c) k
  unfolding find
  overlay-both kp kc p c vp e hp hc k = ground (
    arith,
    (compare_dir_laws asc kp kc).1,
    (compare_dir_laws asc k kc).1,
    find-Above (direction asc) kp p hp,
    find-Above (direction asc) kc c hc,
  )

  Settles-both :
      (kp kc : Bytes) (vp : Slice) (p c : Iter) {p' c' : Iter} {v : Bool}
      → compare_dir asc kp kc ≡ Ordering.eq
      → IsSorted (direction asc) ((kp, vp) ∷ p)
      → IsSorted (direction asc) ((kc, none) ∷ c)
      → Settles p c v p' c'
      → Settles ((kp, vp) ∷ p) ((kc, none) ∷ c) v p' c'
  Settles-both kp kc vp p c e sp sc st = record {
    settled = st.settled;
    sorted_p = st.sorted_p;
    sorted_c = st.sorted_c;
    non_nil = λ h. st.non_nil h.1;
    le_p = omega arith;
    le_c = omega arith;
    above = λ k hp hc. st.above k hp.1 hc.1;
    same = λ k. st.same k ∙ overlay-both kp kc p c vp e sp.0 sc.0 k;
  }

  gt-before : (kp kc : Bytes) → compare_dir asc kp kc ≡ Ordering.gt → before asc kc (some kp) ≡ true
  gt-before kp kc e = ground (arith, (compare_dir_laws asc kp kc).2)

  skip-shrinks :
      (kp kc : Bytes) (c : Iter)
      → before asc kc (some kp) ≡ true
      → length (skip_cache_deletes asc (some kp) ((kc, none) ∷ c)) ≤ length c
  unfolding skip_cache_deletes
  skip-shrinks kp kc c b = rw b (skip-length (some kp) c)

  before-find :
      (kp : Bytes) (vp : Slice) (p : Iter) (j : Bytes)
      → IsSorted (direction asc) ((kp, vp) ∷ p)
      → before asc j (some kp) ≡ true
      → find (direction asc) j ((kp, vp) ∷ p) ≡ none
  before-find kp vp p j s b = find_of_lt-head (direction asc) j kp vp p (ground arith) s.0

  Settles-skip :
      (kp kc : Bytes) (vp : Slice) (p c : Iter) {p' c' : Iter} {v : Bool}
      → IsSorted (direction asc) ((kp, vp) ∷ p)
      → IsSorted (direction asc) ((kc, none) ∷ c)
      → Settles ((kp, vp) ∷ p) (skip_cache_deletes asc (some kp) ((kc, none) ∷ c)) v p' c'
      → Settles ((kp, vp) ∷ p) ((kc, none) ∷ c) v p' c'
  Settles-skip kp kc vp p c sp sc st = record {
    settled = st.settled;
    sorted_p = st.sorted_p;
    sorted_c = st.sorted_c;
    non_nil = st.non_nil;
    le_p = st.le_p;
    le_c = omega (arith, skip-length (some kp) ((kc, none) ∷ c));
    above = λ k hp hc. st.above k hp (skip-Above (some kp) k ((kc, none) ∷ c) hc);
    same = λ k.
        st.same k
        ∙ skip-overlay (some kp) ((kp, vp) ∷ p) ((kc, none) ∷ c) sc (λ j. before-find kp vp p j sp)
            k;
  }

  -- With more fuel than the cache has entries the loop ends, in a settled position that shows the
  -- same values.
  pub skip_until_lem :
      (f : ℕ) (p c : Iter)
      → length c < f
      → IsSorted (direction asc) p
      → IsSorted (direction asc) c
      → (v : Bool) × (p' : Iter) × (c' : Iter) × (skip_until f asc p c ≡ ok (v, p', c'))
        × Settles p c v p' c'
  unfolding skip_until
  skip_until_lem zero p c h sp sc = absurd (omega arith)
  skip_until_lem (suc f) [] c h sp sc = (
    is_valid (skip_cache_deletes asc none c),
    [],
    skip_cache_deletes asc none c,
    refl,
    record {
      settled = skip-IsSettled c;
      sorted_p = sp;
      sorted_c = skip-IsSorted none c sc;
      non_nil = λ q. q;
      le_p = omega arith;
      le_c = skip-length none c;
      above = λ k ap ac. (ap, skip-Above none k c ac);
      same = skip-overlay none [] c sc (λ j e. unfold find in refl);
    },
  )
  skip_until_lem (suc f) (x ∷ p) [] h sp sc = (true, x ∷ p, [], refl, Settles-refl refl sp sc)
  skip_until_lem (suc f) ((kp, vp) ∷ p) ((kc, some w) ∷ c) h sp sc =
      (true, (kp, vp) ∷ p, (kc, some w) ∷ c, ground arith, Settles-refl refl sp sc)
  skip_until_lem (suc f) ((kp, vp) ∷ p) ((kc, none) ∷ c) h sp sc =
      elim (Ordering-cases (compare_dir asc kp kc)) [
        | inl e ↦ (true, (kp, vp) ∷ p, (kc, none) ∷ c, ground arith, Settles-refl (refl, e) sp sc)
        | inr (inl e) ↦
            let (v, p', c', q, st) = skip_until_lem f p c (omega arith) sp.1 sc.1 in
            (v, p', c', ground arith, Settles-both kp kc vp p c e sp sc st)
        | inr (inr e) ↦
            let b = gt-before kp kc e in
            let (v, p', c', q, st) =
              skip_until_lem f ((kp, vp) ∷ p) (skip_cache_deletes asc (some kp) ((kc, none) ∷ c))
                (omega (arith, skip-shrinks kp kc c b)) sp
                (skip-IsSorted (some kp) ((kc, none) ∷ c) sc) in
            (v, p', c', ground arith, Settles-skip kp kc vp p c sp sc st)
      ]
