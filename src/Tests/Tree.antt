-- ===== src/Tests/Tree.antt =====
-- The Merkle hash of internal/tree/hash.go with a function in place of SHA-256.
use melodiasdk_io_store.Prelude.{
  ℕ, ◌≡◌, refl, ◌⊎◌, List, [], ◌∷◌, ok, arith, replicate, length-replicate,
}
use melodiasdk_io_store.Bytes.{Bytes}
use melodiasdk_io_store.Tree.{hash_from_byte_slices, get_split_point, bit_len}
use melodiasdk_io_store.Tree.Split
use melodiasdk_io_store.Tree.Split.{IsSplit}
use melodiasdk_io_store.Tree.Merkle
use melodiasdk_io_store.Tree.Merkle.{Root, Collision}

abbrev same_hash : Bytes → Bytes
same_hash b = replicate 32 7

abbrev items : List Bytes
items = (1 ∷ []) ∷ (2 ∷ []) ∷ (3 ∷ []) ∷ []

get_split_point_lem_example : (k : ℕ) × (get_split_point 11 ≡ ok k) × IsSplit 11 k
get_split_point_lem_example = Split.get_split_point_lem 11 (omega arith) (omega arith)

split_11 : get_split_point 11 ≡ ok 8
unfolding get_split_point bit_len
split_11 = refl

split_8 : get_split_point 8 ≡ ok 4
unfolding get_split_point bit_len
split_8 = refl

hash_from_byte_slices_lem_example :
    (h : Bytes) × (hash_from_byte_slices same_hash items ≡ ok h) × Root same_hash items h
hash_from_byte_slices_lem_example = Merkle.hash_from_byte_slices_lem same_hash items (omega arith)

hash_from_byte_slices-same_example : (items ≡ items) ⊎ Collision same_hash
hash_from_byte_slices-same_example =
    Merkle.hash_from_byte_slices-same same_hash (λ b. length-replicate {A = ℕ} 32 7) items items
      (omega arith) (omega arith) refl
