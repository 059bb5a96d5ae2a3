-- ===== src/Sorted/Reverse.antt =====
-- A sorted list reversed is sorted in the other direction and has the same entries.
use mathlib.Core.List.{reverse_aux}
use melodiasdk_io_store.Prelude.{
  Ordering, ◌≡◌, List, [], ◌∷◌, reverse, arith, Option, none, some, ◌∙◌,
}
use melodiasdk_io_store.Bytes.Order.{KeyOrder}
use melodiasdk_io_store.Sorted.{find, find-nil, find-cons, Above, IsSorted, Above-trans, find-Above}

module _ {K V : Type 0} (o o' : KeyOrder K) (opposite : (a b : K) → o'.cmp a b ≡ o.cmp b a) where
  -- The list `l` goes on where the reversed list `r` begins.
  abbrev Follows : List (K × V) → List (K × V) → Type 0
  Follows [] r = Unit
  Follows ((k, v) ∷ l) r = Above o' k r

  Follows-step :
      (k : K) (v : V) (l r : List (K × V)) → Above o k l → Above o' k r → Follows l ((k, v) ∷ r)
  Follows-step k v [] r a b = tt
  Follows-step k v ((j, w) ∷ l) r a b =
      let h : o'.cmp j k ≡ Ordering.lt = opposite j k ∙ a.0 in (h, Above-trans o' j k r h b)

  reverse_aux-IsSorted :
      (l r : List (K × V))
      → IsSorted o l
      → IsSorted o' r
      → Follows l r
      → IsSorted o' (reverse_aux l r)
  reverse_aux-IsSorted [] r sl sr f = sr
  reverse_aux-IsSorted ((k, v) ∷ l) r sl sr f =
      reverse_aux-IsSorted l ((k, v) ∷ r) sl.1 (f, sr) (Follows-step k v l r sl.0 f)

  abbrev or_else : Option V → Option V → Option V
  or_else (some v) d = some v
  or_else none d = d

  find-reverse_aux :
      (k : K) (l r : List (K × V))
      → IsSorted o l
      → find o' k (reverse_aux l r) ≡ or_else (find o k l) (find o' k r)
  find-reverse_aux k [] r s = ground (arith, find-nil {V = V} o k)
  find-reverse_aux k ((j, v) ∷ l) r s = ground (
    arith,
    find-reverse_aux k l ((j, v) ∷ r) s.1,
    find-cons o k j v l,
    find-cons o' k j v r,
    opposite k j,
    o.cmp_flip k j,
    o.cmp_eq k j,
    find-Above o j l s.0,
  )

  pub reverse-IsSorted : (l : List (K × V)) → IsSorted o l → IsSorted o' (reverse l)
  reverse-IsSorted [] s = tt
  reverse-IsSorted ((k, v) ∷ l) s = reverse_aux-IsSorted ((k, v) ∷ l) [] s tt tt

  pub find-reverse : (k : K) (l : List (K × V)) → IsSorted o l → find o' k (reverse l) ≡ find o k l
  find-reverse k l s = ground (arith, find-reverse_aux k l [] s, find-nil {V = V} o' k)
