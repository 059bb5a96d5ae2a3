-- ===== src/Sorted/Range.antt =====
-- The parts of a sorted list before and from a bound, and a sorted list in the other direction.
use mathlib.Core.List.{reverse_aux}
use melodiasdk_io_store.Prelude.{
  Ordering, ◌≡◌, refl, List, [], ◌∷◌, reverse, arith, none, if◌then◌else◌, Bool, true, false,
  length, ◌≤◌, not, Bool-cases, Ordering-cases, inl, inr,
}
use melodiasdk_io_store.Bytes.Order.{KeyOrder}
use melodiasdk_io_store.Sorted.{find, find-nil, find-cons, Above, IsSorted, find_of_lt-head}

module _ {K V : Type 0} where
  unfoldable pub skip_while : (K → Bool) → List (K × V) → List (K × V)
  skip_while p [] = []
  skip_while p ((j, v) ∷ l) = let rest = skip_while p l in if p j then rest else (j, v) ∷ l

  unfoldable pub take_while : (K → Bool) → List (K × V) → List (K × V)
  take_while p [] = []
  take_while p ((j, v) ∷ l) = let rest = take_while p l in if p j then (j, v) ∷ rest else []

  pub skip_while-length : (p : K → Bool) (l : List (K × V)) → length (skip_while p l) ≤ length l
  unfolding skip_while
  skip_while-length p [] = omega arith
  skip_while-length p ((j, v) ∷ l) = ground (arith, skip_while-length p l)

-- What comes before a key that passes the test passes it too.
abbrev pub IsInitial : {K : Type 0} → KeyOrder K → (K → Bool) → Type 0
IsInitial {K} o p = (i j : K) → o.cmp i j ≡ Ordering.lt → p j ≡ true → p i ≡ true

module _ {K V : Type 0} (o : KeyOrder K) (p : K → Bool) (ini : IsInitial o p) where
  -- Behind a key that fails the test there is none that passes it.
  find_of_fails :
      (k j : K) (v : V) (l : List (K × V))
      → p j ≡ false
      → p k ≡ true
      → Above o j l
      → find o k ((j, v) ∷ l) ≡ none
  find_of_fails k j v l fj pk a = elim (Ordering-cases (o.cmp k j)) [
    | inl e ↦ find_of_lt-head o k j v l e a
    | inr (inl e) ↦ absurd (ground (arith, o.cmp_eq k j))
    | inr (inr e) ↦ absurd (ground (arith, o.cmp_flip k j, ini j k))
  ]

  pub find-skip_while :
      (k : K) (l : List (K × V))
      → IsSorted o l
      → find o k (skip_while p l) ≡ (if p k then none else find o k l)
  unfolding skip_while
  find-skip_while k [] s = ground (arith, find-nil {V = V} o k)
  find-skip_while k ((j, v) ∷ l) s = elim (Bool-cases (p j)) [
    | inl e ↦ ground (arith, find-skip_while k l s.1, o.cmp_eq k j, find-cons o k j v l)
    | inr e ↦ ground (arith, find_of_fails k j v l e)
  ]

  pub find-take_while :
      (k : K) (l : List (K × V))
      → IsSorted o l
      → find o k (take_while p l) ≡ (if p k then find o k l else none)
  unfolding take_while
  find-take_while k [] s = ground (arith, find-nil {V = V} o k)
  find-take_while k ((j, v) ∷ l) s = elim (Bool-cases (p j)) [
    | inl e ↦ ground (
      arith,
      find-take_while k l s.1,
      o.cmp_eq k j,
      find-cons o k j v l,
      find-cons o k j v (take_while p l),
    )
    | inr e ↦ ground (arith, find_of_fails k j v l e, find-nil {V = V} o k)
  ]

module _ {K V : Type 0} (o : KeyOrder K) (p : K → Bool) where
  pub skip_while-Above : (i : K) (l : List (K × V)) → Above o i l → Above o i (skip_while p l)
  unfolding skip_while
  skip_while-Above i [] a = tt
  skip_while-Above i ((j, v) ∷ l) a = ground (arith, skip_while-Above i l a.1)

  pub take_while-Above : (i : K) (l : List (K × V)) → Above o i l → Above o i (take_while p l)
  unfolding take_while
  take_while-Above i [] a = tt
  take_while-Above i ((j, v) ∷ l) a = ground (arith, take_while-Above i l a.1)

  pub skip_while-IsSorted : (l : List (K × V)) → IsSorted o l → IsSorted o (skip_while p l)
  unfolding skip_while
  skip_while-IsSorted [] s = tt
  skip_while-IsSorted ((j, v) ∷ l) s = ground (arith, skip_while-IsSorted l s.1)

  pub take_while-IsSorted : (l : List (K × V)) → IsSorted o l → IsSorted o (take_while p l)
  unfolding take_while
  take_while-IsSorted [] s = tt
  take_while-IsSorted ((j, v) ∷ l) s =
      ground (arith, take_while-IsSorted l s.1, take_while-Above j l s.0)

module _ {K V : Type 0} (p : K → Bool) where
  abbrev AllPass : List (K × V) → Type 0
  AllPass [] = Unit
  AllPass ((j, v) ∷ l) = (p j ≡ true) × AllPass l

  AllPass-skip : (l : List (K × V)) → skip_while p l ≡ [] → AllPass l
  unfolding skip_while
  AllPass-skip [] h = tt
  AllPass-skip ((j, v) ∷ l) h = elim (Bool-cases (p j)) [
    | inl e ↦ (e, AllPass-skip l (ground arith))
    | inr e ↦ absurd (ground arith)
  ]

  AllPass-reverse_aux : (l r : List (K × V)) → AllPass l → AllPass r → AllPass (reverse_aux l r)
  AllPass-reverse_aux [] r hl hr = hr
  AllPass-reverse_aux ((j, v) ∷ l) r hl hr = AllPass-reverse_aux l ((j, v) ∷ r) hl.1 (hl.0, hr)

  skip_none : (l : List (K × V)) → AllPass l → skip_while (λ j. not (p j)) l ≡ l
  unfolding skip_while
  skip_none [] h = refl
  skip_none ((j, v) ∷ l) h = rw h.0

  -- Where every entry comes before a bound, none is skipped from the other end.
  pub skip_while-reverse :
      (l : List (K × V)) → skip_while p l ≡ [] → skip_while (λ j. not (p j)) (reverse l) ≡ reverse l
  skip_while-reverse l h = skip_none (reverse l) (AllPass-reverse_aux l [] (AllPass-skip l h) tt)
