-- ===== src/CacheKv/Merge/Collect.antt =====
-- The whole iteration of cachekv/internal/mergeiterator.go: what a caller's loop over the merged
-- iterator visits.
use melodiasdk_io_store.Prelude.{
  ℕ, zero, suc, ◌+◌, ◌<◌, Ordering, Bool, true, false, ◌≡◌, refl, ◌∙◌, [], ◌∷◌, none, some, ok,
  arith, length, if◌then◌else◌, inl, inr, Ordering-cases, sym, subst,
}
use melodiasdk_io_store.Bytes.{Bytes, Slice, is_eq}
use melodiasdk_io_store.Bytes.Order.{compare_dir, compare_dir_laws, direction}
use melodiasdk_io_store.Sorted.{find, Above, IsSorted, Above-trans, find-before}
use melodiasdk_io_store.Iterator.{Iter, IsNonNil, join}
use melodiasdk_io_store.CacheKv.Merge.{
  CacheMergeIterator, skip_until, skip_until_exists_or_invalid, new_cache_merge_iterator, side,
  advance, next, pick_key, pick_value, key, value, collect, collect_all,
}
use melodiasdk_io_store.CacheKv.Merge.Settle.{overlay, IsSettled, Settles, skip_until_lem}

-- The entries `r` are those that `p` shows under the shadow of `c`.
pub record IsMerged (asc : Bool) (p c r : Iter) : Type 0 where
  pub sorted : IsSorted (direction asc) r
  pub non_nil : IsNonNil r
  pub above :
      (k : Bytes)
      → Above (direction asc) k p
      → Above (direction asc) k c
      → Above (direction asc) k r
  pub same : (k : Bytes) → join (find (direction asc) k r) ≡ overlay asc p c k

module _ (asc : Bool) where
  -- The current entry of a settled position, and the iterators behind it.
  pub record IsStep (p c : Iter) (k : Bytes) (w : Bytes) (p' c' : Iter) : Type 0 where
    pub key_lem : pick_key (side asc p c) p c ≡ ok k
    pub value_lem : pick_value (side asc p c) p c ≡ ok (some w)
    pub advance_lem : advance (side asc p c) p c ≡ ok (p', c')
    pub sorted_p : IsSorted (direction asc) p'
    pub sorted_c : IsSorted (direction asc) c'
    pub non_nil : IsNonNil p'
    pub above_p : Above (direction asc) k p'
    pub above_c : Above (direction asc) k c'
    pub le : length p' + length c' < length p + length c
    pub above :
        (j : Bytes)
        → Above (direction asc) j p
        → Above (direction asc) j c
        → (compare_dir asc j k ≡ Ordering.lt)
    pub same :
        (j : Bytes)
        → overlay asc p c j ≡ (if is_eq (compare_dir asc j k) then some w else overlay asc p' c' j)

  IsStep-parent :
      (k : Bytes) (w : Bytes) (p : Iter)
      → IsSorted (direction asc) ((k, some w) ∷ p)
      → IsNonNil p
      → IsStep ((k, some w) ∷ p) [] k w p []
  unfolding find
  IsStep-parent k w p s n = record {
    key_lem = refl;
    value_lem = refl;
    advance_lem = refl;
    sorted_p = s.1;
    sorted_c = tt;
    non_nil = n;
    above_p = s.0;
    above_c = tt;
    le = omega arith;
    above = λ j a b. a.0;
    same = λ j. ground arith;
  }

  IsStep-cache :
      (k : Bytes) (w : Bytes) (c : Iter)
      → IsSorted (direction asc) ((k, some w) ∷ c)
      → IsStep [] ((k, some w) ∷ c) k w [] c
  unfolding find
  IsStep-cache k w c s = record {
    key_lem = refl;
    value_lem = refl;
    advance_lem = refl;
    sorted_p = tt;
    sorted_c = s.1;
    non_nil = tt;
    above_p = tt;
    above_c = s.0;
    le = omega arith;
    above = λ j a b. b.0;
    same = λ j. ground arith;
  }

  module _ (kp wp : Bytes) (p : Iter) (kc : Bytes) (vc : Slice) (c : Iter)
      (sp : IsSorted (direction asc) ((kp, some wp) ∷ p))
      (sc : IsSorted (direction asc) ((kc, vc) ∷ c)) (n : IsNonNil p) where
    IsStep-lt :
        compare_dir asc kp kc ≡ Ordering.lt
        → IsStep ((kp, some wp) ∷ p) ((kc, vc) ∷ c) kp wp p ((kc, vc) ∷ c)
    unfolding find
    IsStep-lt e = record {
      key_lem = ground arith;
      value_lem = ground arith;
      advance_lem = ground arith;
      sorted_p = sp.1;
      sorted_c = sc;
      non_nil = n;
      above_p = sp.0;
      above_c = (e, Above-trans (direction asc) kp kc c e sc.0);
      le = omega arith;
      above = λ j a b. a.0;
      same = λ j.
          ground (arith, (compare_dir_laws asc j kp).1, find-before (direction asc) kp kc c e sc.0);
    }

    IsStep-eq :
        (wc : Bytes)
        → vc ≡ some wc
        → compare_dir asc kp kc ≡ Ordering.eq
        → IsStep ((kp, some wp) ∷ p) ((kc, vc) ∷ c) kp wc p c
    unfolding find
    IsStep-eq wc v e = record {
      key_lem = ground arith;
      value_lem = ground arith;
      advance_lem = ground arith;
      sorted_p = sp.1;
      sorted_c = sc.1;
      non_nil = n;
      above_p = sp.0;
      above_c =
          subst (λ x. Above (direction asc) x c) (sym ((compare_dir_laws asc kp kc).1 e)) sc.0;
      le = omega arith;
      above = λ j a b. a.0;
      same = λ j. ground (arith, (compare_dir_laws asc kp kc).1);
    }

    IsStep-gt :
        (wc : Bytes)
        → vc ≡ some wc
        → compare_dir asc kp kc ≡ Ordering.gt
        → IsStep ((kp, some wp) ∷ p) ((kc, vc) ∷ c) kc wc ((kp, some wp) ∷ p) c
    unfolding find
    IsStep-gt wc v e =
        let l : compare_dir asc kc kp ≡ Ordering.lt =
          ground (arith, (compare_dir_laws asc kp kc).2) in
        record {
          key_lem = ground arith;
          value_lem = ground arith;
          advance_lem = ground arith;
          sorted_p = sp;
          sorted_c = sc.1;
          non_nil = (refl, n);
          above_p = (l, Above-trans (direction asc) kc kp p l sp.0);
          above_c = sc.0;
          le = omega arith;
          above = λ j a b. b.0;
          same = λ j. ground arith;
        }

  -- A settled position with its flag set has a current entry, which is not a deletion.
  pub step_lem :
      (p c : Iter)
      → IsSettled asc true p c
      → IsSorted (direction asc) p
      → IsSorted (direction asc) c
      → IsNonNil p
      → (k : Bytes) × (w : Bytes) × (p' : Iter) × (c' : Iter) × IsStep p c k w p' c'
  step_lem [] [] st sp sc n = absurd (ground arith)
  step_lem [] ((kc, none) ∷ c) st sp sc n = absurd st
  step_lem [] ((kc, some w) ∷ c) st sp sc n = (kc, w, [], c, IsStep-cache kc w c sc)
  step_lem ((kp, none) ∷ p) c st sp sc n = absurd (ground arith)
  step_lem ((kp, some w) ∷ p) [] st sp sc n = (kp, w, p, [], IsStep-parent kp w p sp n.1)
  step_lem ((kp, some w) ∷ p) ((kc, none) ∷ c) st sp sc n =
      (kp, w, p, (kc, none) ∷ c, IsStep-lt kp w p kc none c sp sc n.1 st.1)
  step_lem ((kp, some w) ∷ p) ((kc, some x) ∷ c) st sp sc n =
      elim (Ordering-cases (compare_dir asc kp kc)) [
        | inl e ↦ (kp, w, p, (kc, some x) ∷ c, IsStep-lt kp w p kc (some x) c sp sc n.1 e)
        | inr (inl e) ↦ (kp, x, p, c, IsStep-eq kp w p kc (some x) c sp sc n.1 x refl e)
        | inr (inr e) ↦
            (kc, x, (kp, some w) ∷ p, c, IsStep-gt kp w p kc (some x) c sp sc n.1 x refl e)
      ]

  pub IsMerged-step :
      {p c p1 c1 r : Iter} {k w : Bytes}
      → IsStep p c k w p1 c1
      → IsMerged asc p1 c1 r
      → IsMerged asc p c ((k, some w) ∷ r)
  unfolding find
  IsMerged-step {r} {k} s m =
      let a = m.above k s.above_p s.above_c in
      record {
        sorted = (a, m.sorted);
        non_nil = (refl, m.non_nil);
        above = λ j hp hc. let l = s.above j hp hc in (l, Above-trans (direction asc) j k r l a);
        same = λ j. ground (arith, s.same j, m.same j);
      }

  -- What the first call of the loop skips does not matter either.
  pub IsMerged-of-Settles :
      {p c p' c' r : Iter} {v : Bool}
      → Settles asc p c v p' c'
      → IsMerged asc p' c' r
      → IsMerged asc p c r
  IsMerged-of-Settles t m = record {
    sorted = m.sorted;
    non_nil = m.non_nil;
    above = λ k hp hc. let (ap, ac) = t.above k hp hc in m.above k ap ac;
    same = λ k. m.same k ∙ t.same k;
  }

  pub IsMerged-end : (p c : Iter) → IsSettled asc false p c → IsMerged asc p c []
  unfolding find
  IsMerged-end [] [] st = record {
    sorted = tt;
    non_nil = tt;
    above = λ k a b. tt;
    same = λ k. refl;
  }
  IsMerged-end [] ((kc, none) ∷ c) st = absurd st
  IsMerged-end [] ((kc, some w) ∷ c) st = absurd (ground arith)
  IsMerged-end (x ∷ p) [] st = absurd (ground arith)
  IsMerged-end ((kp, vp) ∷ p) ((kc, none) ∷ c) st = absurd (ground arith)
  IsMerged-end ((kp, vp) ∷ p) ((kc, some w) ∷ c) st = absurd (ground arith)

  collect_step :
      (f : ℕ) {p c p1 c1 p2 c2 r : Iter} {k w : Bytes} {v : Bool}
      → IsStep p c k w p1 c1
      → skip_until (suc (length c1)) asc p1 c1 ≡ ok (v, p2, c2)
      → collect f (record { parent = p2; cache = c2; ascending = asc; valid = v }) ≡ ok r
      → collect (suc f) (record { parent = p; cache = c; ascending = asc; valid = true })
        ≡ ok ((k, some w) ∷ r)
  unfolding collect key value next skip_until_exists_or_invalid
  collect_step f s e2 e3 = rw (s.key_lem, s.value_lem, s.advance_lem, e2, e3)

  collect_lem :
      (f : ℕ) (p c : Iter) (v : Bool)
      → length p + length c < f
      → IsSettled asc v p c
      → IsSorted (direction asc) p
      → IsSorted (direction asc) c
      → IsNonNil p
      → (r : Iter) × (collect f (record { parent = p; cache = c; ascending = asc; valid = v })
          ≡ ok r)
        × IsMerged asc p c r
  unfolding collect
  collect_lem zero p c v h st sp sc n = absurd (omega arith)
  collect_lem (suc f) p c false h st sp sc n = ([], refl, IsMerged-end p c st)
  collect_lem (suc f) p c true h st sp sc n =
      let (k, w, p1, c1, s) = step_lem p c st sp sc n in
      let (v2, p2, c2, e2, t) =
        skip_until_lem asc (suc (length c1)) p1 c1 (omega arith) s.sorted_p s.sorted_c in
      let (r, e3, m) =
        collect_lem f p2 c2 v2 (omega (arith, s.le, t.le_p, t.le_c)) t.settled t.sorted_p t.sorted_c
          (t.non_nil s.non_nil) in
      ((k, some w) ∷ r, collect_step f s e2 e3, IsMerged-step s (IsMerged-of-Settles t m))

  -- For a parent and a cache that are sorted in the direction of the iteration, the merged iterator is
  -- built and its whole iteration visits, in order and without a panic, exactly the keys that have a
  -- value where the cache shadows the parent, each once and with that value. A nil value in the cache
  -- hides the parent's entry.
  pub merge_iteration :
      (p c : Iter)
      → IsSorted (direction asc) p
      → IsSorted (direction asc) c
      → IsNonNil p
      → (it : CacheMergeIterator) × (r : Iter) × (new_cache_merge_iterator p c asc ≡ ok it)
        × (collect_all it ≡ ok r)
        × IsMerged asc p c r
  unfolding new_cache_merge_iterator collect_all
  merge_iteration p c sp sc n =
      let (v, p', c', e, t) = skip_until_lem asc (suc (length c)) p c (omega arith) sp sc in
      let (r, e', m) =
        collect_lem (suc (length p' + length c')) p' c' v (omega arith) t.settled t.sorted_p
          t.sorted_c (t.non_nil n) in
      (
        record { parent = p'; cache = c'; ascending = asc; valid = v },
        r,
        rw e,
        e',
        IsMerged-of-Settles t m,
      )
