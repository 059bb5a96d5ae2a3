-- ===== src/Sorted.antt =====
-- Lists of keyed entries in strictly ascending key order, for any key order: what an iterator still
-- has to visit, and what an ordered tree holds.
pub mod Range
pub mod Reverse
pub mod Insert
use melodiasdk_io_store.Prelude.{
  Ordering, ◌≡◌, refl, List, [], ◌∷◌, arith, Option, none, some, if◌then◌else◌,
}
use melodiasdk_io_store.Bytes.{is_eq}
use melodiasdk_io_store.Bytes.Order.{KeyOrder}

module _ {K V : Type 0} (o : KeyOrder K) where
  unfoldable pub find : K → List (K × V) → Option V
  find k [] = none
  find k ((j, v) ∷ l) = if is_eq (o.cmp k j) then some v else find k l

  -- Every key of the list comes after `k`.
  abbrev pub Above : K → List (K × V) → Type 0
  Above k [] = Unit
  Above k ((j, v) ∷ l) = (o.cmp k j ≡ Ordering.lt) × Above k l

  abbrev pub IsSorted : List (K × V) → Type 0
  IsSorted [] = Unit
  IsSorted ((k, v) ∷ l) = Above k l × IsSorted l

module _ {K V : Type 0} (o : KeyOrder K) where
  pub Above-trans :
      (j k : K) (l : List (K × V)) → o.cmp j k ≡ Ordering.lt → Above o k l → Above o j l
  Above-trans j k [] h a = tt
  Above-trans j k ((i, v) ∷ l) h a = (o.cmp_trans j k i h a.0, Above-trans j k l h a.1)

  pub find-Above : (k : K) (l : List (K × V)) → Above o k l → find o k l ≡ none
  unfolding find
  find-Above k [] a = refl
  find-Above k ((j, v) ∷ l) a = ground (arith, find-Above k l a.1)

  pub find-before :
      (j k : K) (l : List (K × V)) → o.cmp j k ≡ Ordering.lt → Above o k l → find o j l ≡ none
  find-before j k l h a = find-Above j l (Above-trans j k l h a)

  -- A key before the head is not in a sorted list.
  pub find_of_lt-head :
      (j k : K) (v : V) (l : List (K × V))
      → o.cmp j k ≡ Ordering.lt
      → Above o k l
      → find o j ((k, v) ∷ l) ≡ none
  unfolding find
  find_of_lt-head j k v l h a = ground (arith, find-before j k l h a)

  pub find-nil : (k : K) → find {V = V} o k [] ≡ none
  unfolding find
  find-nil k = refl

  pub find-cons :
      (k j : K) (v : V) (l : List (K × V))
      → find o k ((j, v) ∷ l) ≡ (if is_eq (o.cmp k j) then some v else find o k l)
  unfolding find
  find-cons k j v l = refl
