-- ===== src/Prefix/Iterate.antt =====
-- What the iterators of prefix/store.go visit.
use melodiasdk_io_store.Prelude.{
  ℕ, zero, suc, ◌<◌, ◌≡◌, refl, sym, ap, subst, ◌∙◌, Bool, true, false, [], ◌∷◌, ◌++◌, none, some,
  ok, arith, length, length-append, if◌then◌else◌, is_some, Bool-cases, inl, inr, ltb, drop,
}
use melodiasdk_io_store.Bytes.{Bytes, Slice, has_prefix, IsBytes}
use melodiasdk_io_store.Bytes.Order.{direction, compare_dir, compare_bytes_refl, compare_dir_laws}
use melodiasdk_io_store.Sorted.{find, IsSorted, Above, find-cons}
use melodiasdk_io_store.Iterator.{Iter, IsNonNil, join}
use melodiasdk_io_store.Types.KvStore.{KvStore, Iterates, in_domain, is_inverted}
use melodiasdk_io_store.Types.Utils.{take}
use melodiasdk_io_store.Prefix.{
  Store, PrefixIterator, clone_append, range_end, strip_prefix, new_prefix_iterator, next,
  iterator_key, iterator_value, iterator_valid, collect, collect_all, iterator, head_has_prefix,
}
use melodiasdk_io_store.Prefix.Keys.{
  compare_bytes-prefix, has_prefix-append, without_prefix, range-has_prefix, in_domain-prefix,
  range_end-IsRange,
}
use melodiasdk_io_store.Prefix.Writes.{view}

-- The entries with the prefix before each key.
abbrev add_prefix : Bytes → Iter → Iter
add_prefix q [] = []
add_prefix q ((k, v) ∷ l) = (q ++ k, v) ∷ add_prefix q l

compare_dir-prefix :
    (asc : Bool) (q a b : Bytes) → compare_dir asc (q ++ a) (q ++ b) ≡ compare_dir asc a b
unfolding compare_dir
compare_dir-prefix asc q a b = ground (arith, compare_bytes-prefix q a b)

module _ (asc : Bool) (q : Bytes) where
  find-add_prefix :
      (k : Bytes) (l : Iter)
      → find (direction asc) (q ++ k) (add_prefix q l) ≡ find (direction asc) k l
  unfolding find
  find-add_prefix k [] = refl
  find-add_prefix k ((j, v) ∷ l) = ground (arith, compare_dir-prefix asc q k j, find-add_prefix k l)

  Above-add_prefix :
      (k : Bytes) (l : Iter)
      → Above (direction asc) (q ++ k) (add_prefix q l)
      → Above (direction asc) k l
  Above-add_prefix k [] a = tt
  Above-add_prefix k ((j, v) ∷ l) a =
      (sym (compare_dir-prefix asc q k j) ∙ a.0, Above-add_prefix k l a.1)

  IsSorted-add_prefix :
      (l : Iter) → IsSorted (direction asc) (add_prefix q l) → IsSorted (direction asc) l
  IsSorted-add_prefix [] s = tt
  IsSorted-add_prefix ((k, v) ∷ l) s = (Above-add_prefix k l s.0, IsSorted-add_prefix l s.1)

  IsNonNil-add_prefix : (l : Iter) → IsNonNil (add_prefix q l) → IsNonNil l
  IsNonNil-add_prefix [] h = tt
  IsNonNil-add_prefix ((k, v) ∷ l) h = (h.0, IsNonNil-add_prefix l h.1)

  -- A sorted list whose found keys all have the prefix is one of prefixed keys.
  prefixed_list :
      (items : Iter)
      → IsSorted (direction asc) items
      → ((k : Bytes) → is_some (find (direction asc) k items) ≡ true → has_prefix k q ≡ true)
      → (r : Iter) × (items ≡ add_prefix q r)
  prefixed_list [] s h = ([], refl)
  prefixed_list ((k, v) ∷ l) s h =
      let (k', e) =
        without_prefix q k
          (h k (rw (find-cons (direction asc) k k v l, (compare_dir_laws asc k k).0))) in
      let (r, e') = prefixed_list l s.1 (λ j f. h j (found_in_tail k j v l f)) in
      ((k', v) ∷ r, ground (arith, e, e'))
    where
      found_in_tail :
          (k j : Bytes) (v : Slice) (l : Iter)
          → is_some (find (direction asc) j l) ≡ true
          → is_some (find (direction asc) j ((k, v) ∷ l)) ≡ true
      found_in_tail k j v l f = ground (arith, find-cons (direction asc) j k v l)

take-prefix : (q k : Bytes) → take (length q) (q ++ k) ≡ q
take-prefix [] k = refl
take-prefix (x ∷ q) k = ap (λ l. x ∷ l) (take-prefix q k)

drop-prefix : (q k : Bytes) → drop (length q) (q ++ k) ≡ k
drop-prefix [] k = refl
drop-prefix (x ∷ q) k = drop-prefix q k

strip_prefix-append : (q k : Bytes) → strip_prefix (q ++ k) q ≡ ok k
unfolding strip_prefix
strip_prefix-append q k =
    let long : ltb (length (q ++ k)) (length q) ≡ false = ground (arith, length-append q k) in
    rw (long, take-prefix q k, compare_bytes_refl q, drop-prefix q k)

-- The iterator at prefixed entries.
abbrev at : Bytes → Slice → Slice → Iter → PrefixIterator
at q start end r = record {
  prefix = q;
  start = start;
  end = end;
  iter = add_prefix q r;
  valid = head_has_prefix q (add_prefix q r);
}

module _ (q : Bytes) (start end : Slice) where
  next-at :
      (k : Bytes) (v : Slice) (r : Iter)
      → next (at q start end ((k, v) ∷ r)) ≡ ok (at q start end r)
  unfolding next
  next-at k v r = elim (Bool-cases (head_has_prefix q (add_prefix q r))) [
    | inl e ↦ rw (has_prefix-append q k, e)
    | inr e ↦ rw (has_prefix-append q k, e)
  ]

  key-at : (k : Bytes) (v : Slice) (r : Iter) → iterator_key (at q start end ((k, v) ∷ r)) ≡ ok k
  unfolding iterator_key
  key-at k v r = rw (has_prefix-append q k) (strip_prefix-append q k)

  value-at :
      (k : Bytes) (v : Slice) (r : Iter) → iterator_value (at q start end ((k, v) ∷ r)) ≡ ok v
  unfolding iterator_value
  value-at k v r = rw (has_prefix-append q k)

  collect-at : (r : Iter) (f : ℕ) → length r < f → collect f (at q start end r) ≡ ok r
  unfolding collect iterator_valid
  collect-at r zero h = absurd (omega arith)
  collect-at [] (suc f) h = refl
  collect-at ((k, v) ∷ r) (suc f) h =
      rw (key-at k v r, value-at k v r, next-at k v r, collect-at r f (omega arith))
        (rw (has_prefix-append q k))

length-add_prefix : (q : Bytes) (r : Iter) → length (add_prefix q r) ≡ length r
length-add_prefix q [] = refl
length-add_prefix q ((k, v) ∷ r) = ap suc (length-add_prefix q r)

collect_all-prefixed :
    (q : Bytes) (start end : Slice) (items r : Iter)
    → items ≡ add_prefix q r
    → collect_all (new_prefix_iterator q start end items) ≡ ok r
unfolding collect_all new_prefix_iterator
collect_all-prefixed q start end items r e =
    rw (e, length-add_prefix q r) (collect-at q start end r (suc (length r)) (omega arith))

module _ (p : KvStore) where
  -- Every live key of the parent consists of bytes.
  abbrev pub HasByteKeys : p.State → Type 0
  HasByteKeys s = (k : Bytes) → is_some (p.view s k) ≡ true → IsBytes k

  -- The keys that the parent's iterator finds have the prefix.
  found-has_prefix :
      (s : p.State) (q : Bytes) (start end : Slice) (asc : Bool) (items : Iter)
      → IsBytes q
      → HasByteKeys s
      → Iterates asc (p.view s) (some (clone_append q start)) (range_end q end) items
      → (k : Bytes) → is_some (join (find (direction asc) k items)) ≡ true
      → has_prefix k q ≡ true
  found-has_prefix s q start end asc items hq hk it k f =
      elim (Bool-cases (in_domain k (some (clone_append q start)) (range_end q end))) [
        | inl d ↦ range-has_prefix q k start end hq (hk k (ground (arith, it.exact k))) d
        | inr d ↦ absurd (ground (arith, it.exact k))
      ]

  find-IsNonNil :
      (asc : Bool) (k : Bytes) (l : Iter)
      → IsNonNil l
      → is_some (find (direction asc) k l) ≡ true
      → is_some (join (find (direction asc) k l)) ≡ true
  unfolding find
  find-IsNonNil asc k [] n f = f
  find-IsNonNil asc k ((j, v) ∷ l) n f = ground (arith, find-IsNonNil asc k l n.1)

  shown-Iterates :
      (s : Store p) (start end : Slice) (asc : Bool) (items r : Iter)
      → IsBytes s.prefix
      → items ≡ add_prefix s.prefix r
      → Iterates asc
          (p.view s.parent)
          (some (clone_append s.prefix start))
          (range_end s.prefix end)
          items
      → Iterates asc (view p s) start end r
  shown-Iterates s start end asc items r hq e its = record {
    sorted =
        IsSorted-add_prefix asc s.prefix r (subst (λ l. IsSorted (direction asc) l) e its.sorted);
    non_nil = IsNonNil-add_prefix asc s.prefix r (subst (λ l. IsNonNil l) e its.non_nil);
    exact = λ k.
        ap join (
          sym (find-add_prefix asc s.prefix k r)
          ∙ ap (λ l. find (direction asc) (s.prefix ++ k) l) (sym e))
        ∙ its.exact (s.prefix ++ k)
        ∙ ap (λ b. if b then view p s k else none) (in_domain-prefix s.prefix k start end hq);
  }

  -- `Iterator` and `ReverseIterator` over a range that is not inverted visit the keys of the range that
  -- the store shows, without the prefix, in order, and change nothing of what is shown. The prefix is not
  -- empty, and it and the parent's live keys consist of bytes.
  pub prefix_iteration :
      (s : Store p) (start end : Slice) (asc : Bool)
      → p.IsOk s.parent
      → 0 < length s.prefix
      → IsBytes s.prefix
      → HasByteKeys s.parent
      → is_inverted start end ≡ false
      → (it : PrefixIterator) × (s' : Store p) × (r : Iter) × (iterator p s start end asc
          ≡ ok (it, s'))
        × (collect_all it ≡ ok r)
        × p.IsOk s'.parent
        × ((j : Bytes) → p.view s'.parent j ≡ p.view s.parent j)
        × Iterates asc (view p s) start end r
  unfolding iterator
  prefix_iteration s start end asc o nonempty hq hk h =
      let (items, t, run, o', same, its) =
        p.iterator_lem s.parent (some (clone_append s.prefix start)) (range_end s.prefix end) asc o
          (range_end-IsRange s.prefix start end nonempty hq h) in
      let (r, e) = prefixed_list asc s.prefix items its.sorted (λ k f.
        found-has_prefix s.parent s.prefix start end asc items hq hk its k
          (find-IsNonNil asc k items its.non_nil f)) in
      (
        new_prefix_iterator s.prefix start end items,
        record s { parent = t },
        r,
        rw run,
        collect_all-prefixed s.prefix start end items r e,
        o',
        same,
        shown-Iterates s start end asc items r hq e its,
      )
