-- ===== src/Iterator.antt =====
-- The iterators of the stores (types/store.go, `Iterator = dbm.Iterator`) by their contract: an
-- iterator is the list of entries that it has still to visit, its head the current one. `Key`,
-- `Value` and `Next` panic on an iterator that is not valid. A nil value is `none`.
use melodiasdk_io_store.Prelude.{
  Bool, true, false, List, [], ◌∷◌, Result, ok, panic, iterator_invalid, Option, none, some,
  is_some, ◌≡◌,
}
use melodiasdk_io_store.Bytes.{Bytes, Slice}

abbrev pub Item : Type 0
Item = Bytes × Slice

abbrev pub Iter : Type 0
Iter = List Item

abbrev pub is_valid : Iter → Bool
is_valid [] = false
is_valid (x ∷ l) = true

abbrev pub iter_key : Iter → Result Bytes
iter_key [] = panic iterator_invalid
iter_key ((k, v) ∷ l) = ok k

abbrev pub iter_value : Iter → Result Slice
iter_value [] = panic iterator_invalid
iter_value ((k, v) ∷ l) = ok v

abbrev pub iter_next : Iter → Result Iter
iter_next [] = panic iterator_invalid
iter_next (x ∷ l) = ok l

-- No entry has a nil value: a store's own iterator shows live keys alone.
abbrev pub IsNonNil : Iter → Type 0
IsNonNil [] = Unit
IsNonNil ((k, v) ∷ l) = (is_some v ≡ true) × IsNonNil l

-- A found value that may be nil: `Get` returns nil for a missing key and for a nil value alike.
abbrev pub join : Option Slice → Slice
join none = none
join (some v) = v
