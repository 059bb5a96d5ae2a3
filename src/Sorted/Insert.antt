-- ===== src/Sorted/Insert.antt =====
-- Insertion into and removal from a sorted list.
use melodiasdk_io_store.Prelude.{
  Ordering, ◌≡◌, refl, List, [], ◌∷◌, arith, none, some, if◌then◌else◌, Bool,
}
use melodiasdk_io_store.Bytes.{is_eq}
use melodiasdk_io_store.Bytes.Order.{KeyOrder}
use melodiasdk_io_store.Sorted.{find, Above, IsSorted, Above-trans}

module _ {K V : Type 0} (o : KeyOrder K) where
  unfoldable pub insert : K → V → List (K × V) → List (K × V)
  insert k v [] = (k, v) ∷ []
  insert k v ((j, w) ∷ l) =
      let rest = insert k v l in
      elim (o.cmp k j) [
        | Ordering.lt ↦ (k, v) ∷ (j, w) ∷ l
        | Ordering.eq ↦ (k, v) ∷ l
        | Ordering.gt ↦ (j, w) ∷ rest
      ]

  unfoldable pub erase : K → List (K × V) → List (K × V)
  erase k [] = []
  erase k ((j, w) ∷ l) = let rest = erase k l in if is_eq (o.cmp k j) then rest else (j, w) ∷ rest

  unfoldable pub keep : (K → Bool) → List (K × V) → List (K × V)
  keep p [] = []
  keep p ((j, w) ∷ l) = let rest = keep p l in if p j then (j, w) ∷ rest else rest

module _ {K V : Type 0} (o : KeyOrder K) where
  insert-Above :
      (i k : K) (v : V) (l : List (K × V))
      → o.cmp i k ≡ Ordering.lt
      → Above o i l
      → Above o i (insert o k v l)
  unfolding insert
  insert-Above i k v [] h a = (h, tt)
  insert-Above i k v ((j, w) ∷ l) h a = ground (arith, insert-Above i k v l h a.1)

  pub insert-IsSorted :
      (k : K) (v : V) (l : List (K × V)) → IsSorted o l → IsSorted o (insert o k v l)
  unfolding insert
  insert-IsSorted k v [] s = (tt, tt)
  insert-IsSorted k v ((j, w) ∷ l) s = ground (
    arith,
    insert-IsSorted k v l s.1,
    insert-Above j k v l,
    o.cmp_flip k j,
    o.cmp_eq k j,
    Above-trans o k j l,
  )

  pub find-insert :
      (k i : K) (v : V) (l : List (K × V))
      → IsSorted o l
      → find o i (insert o k v l) ≡ (if is_eq (o.cmp i k) then some v else find o i l)
  unfolding insert find
  find-insert k i v [] s = refl
  find-insert k i v ((j, w) ∷ l) s = ground (
    arith,
    find-insert k i v l s.1,
    o.cmp_eq k j,
    o.cmp_eq i j,
    o.cmp_eq i k,
    o.cmp_refl k,
    o.cmp_refl j,
  )

  erase-Above : (i k : K) (l : List (K × V)) → Above o i l → Above o i (erase o k l)
  unfolding erase
  erase-Above i k [] a = tt
  erase-Above i k ((j, w) ∷ l) a = ground (arith, erase-Above i k l a.1)

  pub erase-IsSorted : (k : K) (l : List (K × V)) → IsSorted o l → IsSorted o (erase o k l)
  unfolding erase
  erase-IsSorted k [] s = tt
  erase-IsSorted k ((j, w) ∷ l) s = ground (arith, erase-IsSorted k l s.1, erase-Above j k l s.0)

  pub find-erase :
      (k i : K) (l : List (K × V))
      → find o i (erase o k l) ≡ (if is_eq (o.cmp i k) then none else find o i l)
  unfolding erase find
  find-erase k i [] = ground arith
  find-erase k i ((j, w) ∷ l) = ground (
    arith,
    find-erase k i l,
    o.cmp_eq k j,
    o.cmp_eq i j,
    o.cmp_eq i k,
    o.cmp_refl k,
    o.cmp_refl j,
  )

  keep-Above : (i : K) (p : K → Bool) (l : List (K × V)) → Above o i l → Above o i (keep o p l)
  unfolding keep
  keep-Above i p [] a = tt
  keep-Above i p ((j, w) ∷ l) a = ground (arith, keep-Above i p l a.1)

  pub keep-IsSorted : (p : K → Bool) (l : List (K × V)) → IsSorted o l → IsSorted o (keep o p l)
  unfolding keep
  keep-IsSorted p [] s = tt
  keep-IsSorted p ((j, w) ∷ l) s = ground (arith, keep-IsSorted p l s.1, keep-Above j p l s.0)

  pub find-keep :
      (p : K → Bool) (i : K) (l : List (K × V))
      → find o i (keep o p l) ≡ (if p i then find o i l else none)
  unfolding keep find
  find-keep p i [] = ground arith
  find-keep p i ((j, w) ∷ l) = ground (arith, find-keep p i l, o.cmp_eq i j)
