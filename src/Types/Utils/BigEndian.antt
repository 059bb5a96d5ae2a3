-- ===== src/Types/Utils/BigEndian.antt =====
-- Numbers as keys: types/utils.go, Uint64ToBigEndian and BigEndianToUint64.
use native.Mathlib.Numerals.{unary_clauses}
use melodiasdk_io_store.Prelude.{
  ℕ, zero, suc, ◌+◌, ◌*◌, ◌/◌, ◌%◌, ◌^◌, ◌<◌, ◌≡◌, refl, sym, ap, ◌∙◌, ◌>>=◌, [], ◌∷◌, ◌++◌, ok,
  length, arith, compare, Ordering, length-append,
}
use melodiasdk_io_store.Bytes.{Bytes, compare_bytes}
use melodiasdk_io_store.Types.Gas.{two_64}
use melodiasdk_io_store.Types.Utils.{
  big_endian, uint64_to_big_endian, read_bytes, big_endian_to_uint64,
}

-- Orders by the first, and by the second where the first are equal.
abbrev then_by : Ordering → Ordering → Ordering
then_by Ordering.lt o = Ordering.lt
then_by Ordering.eq o = o
then_by Ordering.gt o = Ordering.gt

compare_bytes-append :
    (a b : Bytes) (x y : ℕ)
    → length a ≡ length b
    → compare_bytes (a ++ (x ∷ [])) (b ++ (y ∷ [])) ≡ then_by (compare_bytes a b) (compare x y)
unfolding compare_bytes
compare_bytes-append [] [] x y h = ground arith
compare_bytes-append [] (c ∷ b) x y h = absurd (omega arith)
compare_bytes-append (c ∷ a) [] x y h = absurd (omega arith)
compare_bytes-append (c ∷ a) (d ∷ b) x y h = ground (arith, compare_bytes-append a b x y)

pub length-big_endian : (n i : ℕ) → length (big_endian n i) ≡ n
unfolding big_endian
length-big_endian zero i = refl
length-big_endian (suc n) i =
    omega
      (arith, length-append (big_endian n (i / 256)) (i % 256 ∷ []), length-big_endian n (i / 256))

compare_digits :
    (i j : ℕ) → then_by (compare (i / 256) (j / 256)) (compare (i % 256) (j % 256)) ≡ compare i j
compare_digits i j = ground arith

div_lt : (n i : ℕ) → i < 256 ^ suc n → i / 256 < 256 ^ n
div_lt n i h = omega (arith, simp unary_clauses at h)

-- Numbers of `n` bytes are ordered as their encodings.
compare-big_endian :
    (n i j : ℕ)
    → i < 256 ^ n
    → j < 256 ^ n
    → compare_bytes (big_endian n i) (big_endian n j) ≡ compare i j
unfolding big_endian compare_bytes
compare-big_endian zero i j hi hj = ground arith
compare-big_endian (suc n) i j hi hj =
    compare_bytes-append (big_endian n (i / 256)) (big_endian n (j / 256)) (i % 256) (j % 256)
      (length-big_endian n (i / 256) ∙ sym (length-big_endian n (j / 256)))
    ∙ ap (λ o. then_by o (compare (i % 256) (j % 256)))
        (compare-big_endian n (i / 256) (j / 256) (div_lt n i hi) (div_lt n j hj))
    ∙ compare_digits i j

-- "so it can be sorted": the encodings of two `uint64` compare as the numbers do.
pub uint64_to_big_endian-order :
    (i j : ℕ)
    → i < two_64
    → j < two_64
    → compare_bytes (uint64_to_big_endian i) (uint64_to_big_endian j) ≡ compare i j
unfolding uint64_to_big_endian
uint64_to_big_endian-order i j hi hj = compare-big_endian 8 i j hi hj

read_bytes-append :
    (n acc x : ℕ) (a : Bytes)
    → length a ≡ n
    → read_bytes (suc n) acc (a ++ (x ∷ [])) ≡ (read_bytes n acc a >>= λ r. ok (r * 256 + x))
unfolding read_bytes
read_bytes-append zero acc x [] h = refl
read_bytes-append zero acc x (y ∷ a) h = absurd (omega arith)
read_bytes-append (suc n) acc x [] h = absurd (omega arith)
read_bytes-append (suc n) acc x (y ∷ a) h = read_bytes-append n (acc * 256 + y) x a (omega arith)

pub read_bytes-big_endian : (n i : ℕ) → i < 256 ^ n → read_bytes n 0 (big_endian n i) ≡ ok i
unfolding big_endian read_bytes
read_bytes-big_endian zero i h = ap ok (omega arith)
read_bytes-big_endian (suc n) i h =
    read_bytes-append n 0 (i % 256) (big_endian n (i / 256)) (length-big_endian n (i / 256))
    ∙ ap (λ r. r >>= λ q. ok (q * 256 + i % 256)) (read_bytes-big_endian n (i / 256) (div_lt n i h))
    ∙ ap ok (omega arith)

-- A `uint64` is read back from its encoding.
pub big_endian_to_uint64-uint64_to_big_endian :
    (i : ℕ) → i < two_64 → big_endian_to_uint64 (uint64_to_big_endian i) ≡ ok i
unfolding big_endian_to_uint64 uint64_to_big_endian big_endian
big_endian_to_uint64-uint64_to_big_endian i h = read_bytes-big_endian 8 i h
