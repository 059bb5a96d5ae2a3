-- ===== src/Tree/Split.antt =====
-- The point at which internal/tree/hash.go splits a row.
use melodiasdk_io_store.Prelude.{
  ℕ, zero, suc, ◌+◌, ◌-◌, ◌/◌, ◌^◌, ◌≤◌, ◌<◌, ◌≡◌, refl, sym, ap, ◌∙◌, subst, inl, inr, arith, ok,
  ◌==◌, if◌then◌else◌, Bool-cases, if-true, if-false,
}
use melodiasdk_io_store.Tree.{bit_len, get_split_point}
use melodiasdk_io_store.Pruning.Manager.{two_63}

-- A split of a row of `n`: a power of two below `n`, of which the double is not below it.
pub record IsSplit (n k : ℕ) : Type 0 where
  pub exponent : ℕ
  pub power : k ≡ 2 ^ exponent
  pub below : k < n
  pub largest : n ≤ k + k

pow_suc : (n : ℕ) → 2 ^ suc n ≡ 2 ^ n + 2 ^ n
pow_suc n = grind arith

pow_pos : (n : ℕ) → 0 < 2 ^ n
pow_pos zero = omega arith
pow_pos (suc n) = omega (arith, pow_suc n, pow_pos n)

bit_len-zero : (bits : ℕ) → bit_len bits 0 ≡ 0
unfolding bit_len
bit_len-zero zero = refl
bit_len-zero (suc bits) = refl

-- The highest bit of a number that has no more than the bits.
bit_len_lem :
    (bits n : ℕ)
    → 0 < n
    → n < 2 ^ bits
    → (e : ℕ) × (bit_len bits n ≡ suc e) × (2 ^ e ≤ n) × (n < 2 ^ e + 2 ^ e)
unfolding bit_len
bit_len_lem zero n pos lt = absurd (omega arith)
bit_len_lem (suc bits) n pos lt = elim (Bool-cases (n / 2 == 0)) [
  | inl one ↦
      let half : n / 2 ≡ 0 = ground arith in
      (
        0,
        if-false (n == 0) _ _ (ground arith)
            ∙ ap (λ x. suc (bit_len bits x)) half
            ∙ ap suc (bit_len-zero bits),
        pos,
        omega arith,
      )
  | inr more ↦
      let (e, l, low, high) =
        bit_len_lem bits (n / 2) (ground arith) (omega (arith, pow_suc bits)) in
      (
        suc e,
        if-false (n == 0) _ _ (ground arith) ∙ ap suc l,
        omega (arith, pow_suc e),
        omega (arith, pow_suc e),
      )
]

-- The greatest power of two not above a number, or half of it if it is the number.
IsSplit-power :
    (n e : ℕ)
    → 2 ≤ n
    → 2 ^ e ≤ n
    → n < 2 ^ e + 2 ^ e
    → IsSplit n (if 2 ^ e == n then 2 ^ e / 2 else 2 ^ e)
IsSplit-power n zero two low high = absurd (omega arith)
IsSplit-power n (suc e) two low high = elim (Bool-cases (2 ^ suc e == n)) [
  | inl same ↦
      let all : 2 ^ suc e ≡ n = ground arith in
      let half : 2 ^ suc e / 2 ≡ 2 ^ e = omega (arith, pow_suc e) in
      subst (IsSplit n) (sym (if-true (2 ^ suc e == n) _ _ same ∙ half)) (record {
        exponent = e;
        power = refl;
        below = omega (arith, pow_suc e, all, pow_pos e);
        largest = omega (arith, pow_suc e, all);
      })
  | inr other ↦
      subst (IsSplit n) (sym (if-false (2 ^ suc e == n) _ _ other))
        (record { exponent = suc e; power = refl; below = ground arith; largest = omega arith })
]

-- For a row of 2 or more and fewer than 2 ^ 63, getSplitPoint returns the largest power of two below the length: the
-- double is not below it.
pub get_split_point_lem :
    (n : ℕ) → 2 ≤ n → n < two_63 → (k : ℕ) × (get_split_point n ≡ ok k) × IsSplit n k
unfolding get_split_point
get_split_point_lem n two fits =
    let (e, len, low, high) = bit_len_lem 64 n (omega arith) (omega arith) in
    let exp : bit_len 64 n - 1 ≡ e = omega (arith, len) in
    (
      (if 2 ^ e == n then 2 ^ e / 2 else 2 ^ e),
      if-false (n == 0) _ _ (ground arith)
          ∙ ap (λ x. ok (if 2 ^ x == n then 2 ^ x / 2 else 2 ^ x)) exp,
      IsSplit-power n e two low high,
    )
