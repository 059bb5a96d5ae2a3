-- ===== src/Bytes.antt =====
-- Go's byte slices and strings: a list of bytes. `nil`, where the code tells it from an empty slice,
-- is `none` of `Option Bytes`. `compare_bytes` is `bytes.Compare` and the order of Go strings.
pub mod Order
use melodiasdk_io_store.Prelude.{
  ℕ, ◌<◌, compare, Ordering, Bool, true, false, List, [], ◌∷◌, ◌≡◌, Option, none, some, ◌==◌, ◌&&◌,
}

abbrev pub Bytes : Type 0
Bytes = List ℕ

-- A Go `[]byte` that may be nil.
abbrev pub Slice : Type 0
Slice = Option Bytes

unfoldable pub compare_bytes : Bytes → Bytes → Ordering
compare_bytes [] [] = Ordering.eq
compare_bytes [] (y ∷ ys) = Ordering.lt
compare_bytes (x ∷ xs) [] = Ordering.gt
compare_bytes (x ∷ xs) (y ∷ ys) =
    let rest = compare_bytes xs ys in
    elim (compare x y) [
      | Ordering.lt ↦ Ordering.lt
      | Ordering.eq ↦ rest
      | Ordering.gt ↦ Ordering.gt
    ]

abbrev pub flip : Ordering → Ordering
flip Ordering.lt = Ordering.gt
flip Ordering.eq = Ordering.eq
flip Ordering.gt = Ordering.lt

abbrev pub is_lt : Ordering → Bool
is_lt Ordering.lt = true
is_lt _ = false

abbrev pub is_eq : Ordering → Bool
is_eq Ordering.eq = true
is_eq _ = false

abbrev pub is_gt : Ordering → Bool
is_gt Ordering.gt = true
is_gt _ = false

abbrev pub bytes_eq : Bytes → Bytes → Bool
bytes_eq a b = is_eq (compare_bytes a b)

-- `bytes.HasPrefix(s, prefix)`
unfoldable pub has_prefix : Bytes → Bytes → Bool
has_prefix s [] = true
has_prefix [] (p ∷ ps) = false
has_prefix (x ∷ xs) (p ∷ ps) = x == p && has_prefix xs ps

-- Every element is a byte.
abbrev pub IsBytes : Bytes → Type 0
IsBytes [] = Unit
IsBytes (x ∷ xs) = (x < 256) × IsBytes xs
