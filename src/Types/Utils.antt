-- ===== src/Types/Utils.antt =====
-- types/utils.go: the ends of key ranges, and numbers as keys.
pub mod Ends
pub mod BigEndian
use melodiasdk_io_store.Prelude.{
  ℕ, zero, suc, ◌+◌, ◌*◌, ◌/◌, ◌%◌, List, [], ◌∷◌, ◌++◌, Option, none, some, Result, ok, panic,
  index_out_of_range, length, get_elem?, ◌==◌, ltb, not, if◌then◌else◌, guard, ◌>>=◌, ◌>>◌,
}
use melodiasdk_io_store.Bytes.{Bytes, Slice}

-- `end[:i]`
abbrev pub take : ℕ → Bytes → Bytes
take zero b = []
take (suc i) [] = []
take (suc i) (x ∷ b) = x ∷ take i b

-- `end[i]`, for an index that the slice has.
abbrev pub byte_at : Bytes → ℕ → ℕ
byte_at [] i = 0
byte_at (x ∷ b) zero = x
byte_at (x ∷ b) (suc i) = byte_at b i

-- The loop of `PrefixEndBytes` where the first `n` bytes of the copy are left.
unfoldable pub prefix_end_loop : Bytes → ℕ → Slice
prefix_end_loop end zero = none
prefix_end_loop end (suc i) =
    let shorter = prefix_end_loop end i in
    if not (byte_at end i == 255)
    then some (take i end ++ ((byte_at end i + 1) % 256 ∷ []))
    else shorter

unfoldable pub prefix_end_bytes : Bytes → Slice
unfolding prefix_end_loop
prefix_end_bytes prefix = prefix_end_loop prefix (length prefix)

unfoldable pub inclusive_end_bytes : Bytes → Bytes
inclusive_end_bytes inclusive_bytes = inclusive_bytes ++ (0 ∷ [])

-- The low `n` bytes of a number, the highest first.
unfoldable pub big_endian : ℕ → ℕ → Bytes
big_endian zero i = []
big_endian (suc n) i = big_endian n (i / 256) ++ (i % 256 ∷ [])

unfoldable pub uint64_to_big_endian : ℕ → Bytes
unfolding big_endian
uint64_to_big_endian i = big_endian 8 i

-- The number that the next `n` bytes stand for, behind those that were read; too few of them panic.
unfoldable pub read_bytes : ℕ → ℕ → Bytes → Result ℕ
read_bytes zero acc b = ok acc
read_bytes (suc n) acc [] = panic index_out_of_range
read_bytes (suc n) acc (x ∷ b) = read_bytes n (acc * 256 + x) b

unfoldable pub big_endian_to_uint64 : Bytes → Result ℕ
unfolding read_bytes
big_endian_to_uint64 [] = ok 0
big_endian_to_uint64 (x ∷ b) = read_bytes 8 0 (x ∷ b)
