-- ===== src/Types/Validity.antt =====
-- types/validity.go: the checks on keys and values, which panic. A nil key counts as an empty one.
use melodiasdk_io_store.Prelude.{
  ℕ, ◌<◌, ◌≤◌, ◌≡◌, none, some, Result, ok, panic, guard, ◌>>◌, length, ltb, ◌==◌, key_empty,
  key_too_large, value_nil, value_too_large, arith,
}
use melodiasdk_io_store.Bytes.{Bytes, Slice}

-- (1 << 17) - 1
abbrev pub max_key_length : ℕ
max_key_length = 131071

-- (1 << 31) - 1
abbrev pub max_value_length : ℕ
max_value_length = 2147483647

unfoldable pub assert_valid_key : Bytes → Result (Unit {0})
assert_valid_key key = do
  guard (length key == 0) key_empty
  guard (ltb max_key_length (length key)) key_too_large

unfoldable pub assert_valid_value : Slice → Result (Unit {0})
assert_valid_value none = panic value_nil
assert_valid_value (some value) = guard (ltb max_value_length (length value)) value_too_large

abbrev pub IsKey : Bytes → Type 0
IsKey key = (0 < length key) × (length key ≤ max_key_length)

abbrev pub IsValue : Bytes → Type 0
IsValue value = length value ≤ max_value_length

pub assert_valid_key_lem : (key : Bytes) → IsKey key → assert_valid_key key ≡ ok tt
unfolding assert_valid_key
assert_valid_key_lem key h = ground arith

pub IsKey-of-assert : (key : Bytes) → assert_valid_key key ≡ ok tt → IsKey key
unfolding assert_valid_key
IsKey-of-assert key h = ground arith

pub assert_valid_value_lem : (v : Bytes) → IsValue v → assert_valid_value (some v) ≡ ok tt
unfolding assert_valid_value
assert_valid_value_lem v h = ground arith
