-- ===== src/Tree.antt =====
-- internal/tree/hash.go: the Merkle hash of a row of byte slices. SHA-256 of the standard library is a parameter;
-- an int64 that is not negative is a number below 2 ^ 63.
pub mod Split
pub mod Merkle
use melodiasdk_io_store.Prelude.{
  ℕ, zero, suc, ◌+◌, ◌-◌, ◌/◌, ◌^◌, List, [], ◌∷◌, ◌++◌, Result, ok, panic, length, drop, ◌==◌,
  no_fuel, should_not_happen, ◌>>=◌, if◌then◌else◌,
}
use melodiasdk_io_store.Bytes.{Bytes}

-- `items[:k]`
unfoldable pub take {ℓ} : {A : Type ℓ} → ℕ → List A → List A
take zero l = []
take (suc k) [] = []
take (suc k) (x ∷ l) = x ∷ take k l

-- `bits.Len`, within as many bits as the first argument says.
unfoldable pub bit_len : ℕ → ℕ → ℕ
bit_len zero n = 0
bit_len (suc bits) n = let rest = bit_len bits (n / 2) in if n == 0 then 0 else suc rest

-- For a length below 2 ^ 63.
unfoldable pub get_split_point : ℕ → Result ℕ
unfolding bit_len
get_split_point length =
    if length == 0
    then panic should_not_happen
    else let k = 2 ^ (bit_len 64 length - 1) in ok (if k == length then k / 2 else k)

module _ (sha256 : Bytes → Bytes) where
  unfoldable pub leaf_hash : Bytes → Bytes
  leaf_hash leaf = sha256 ((0 ∷ []) ++ leaf)

  unfoldable pub inner_hash : Bytes → Bytes → Bytes
  inner_hash left right = sha256 ((1 ∷ []) ++ left ++ right)

  unfoldable pub empty_hash : Bytes
  empty_hash = sha256 []

  -- The recursion on `fuel`.
  unfoldable pub hash_items : ℕ → List Bytes → Result Bytes
  unfolding leaf_hash inner_hash empty_hash get_split_point take
  hash_items fuel [] = ok empty_hash
  hash_items fuel (item ∷ []) = ok (leaf_hash item)
  hash_items zero (x ∷ y ∷ l) = panic no_fuel
  hash_items (suc fuel) (x ∷ y ∷ l) = do
    k ← get_split_point (length (x ∷ y ∷ l))
    left ← hash_items fuel (take k (x ∷ y ∷ l))
    right ← hash_items fuel (drop k (x ∷ y ∷ l))
    ok (inner_hash left right)

  -- Each part is shorter than the whole.
  unfoldable pub hash_from_byte_slices : List Bytes → Result Bytes
  unfolding hash_items
  hash_from_byte_slices items = hash_items (length items) items
