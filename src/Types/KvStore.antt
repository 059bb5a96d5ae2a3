-- ===== src/Types/KvStore.antt =====
-- types/store.go: `KVStore`, as an interface with the laws that its comments promise. A store wraps a
-- parent through this interface and, where it is one itself, gives a value of it.
use melodiasdk_io_store.Prelude.{
  ◌≡◌, Bool, true, false, none, some, Result, ok, if◌then◌else◌, not, ◌&&◌, [], ◌∷◌,
}
use melodiasdk_io_store.Bytes.{Bytes, Slice, bytes_eq, compare_bytes, is_lt, is_gt}
use melodiasdk_io_store.Bytes.Order.{direction}
use melodiasdk_io_store.Sorted.{find, IsSorted}
use melodiasdk_io_store.Iterator.{Iter, IsNonNil, join}
use melodiasdk_io_store.Types.Validity.{IsKey, IsValue}

-- "Start must be less than end": start <= k < end, where a nil bound is no bound.
unfoldable pub in_domain : Bytes → Slice → Slice → Bool
in_domain k start end =
    (elim start [ none ↦ true | some a ↦ not (is_lt (compare_bytes k a)) ])
    && (elim end [ none ↦ true | some b ↦ is_lt (compare_bytes k b) ])

-- `dbm.IsKeyInDomain` of github.com/cosmos/cosmos-db, with what its documentation says.
pub record KeyDomain : Type 0 where
  pub is_key_in_domain : Bytes → Slice → Slice → Bool
  pub domain_lem :
      (k : Bytes) (start end : Slice) → is_key_in_domain k start end ≡ in_domain k start end

abbrev pub is_empty : Slice → Bool
is_empty none = false
is_empty (some []) = true
is_empty (some (x ∷ l)) = false

-- A nil bound counts as the empty string.
abbrev pub or_empty : Slice → Bytes
or_empty none = []
or_empty (some b) = b

-- `end != nil && start > end`
unfoldable pub is_inverted : Slice → Slice → Bool
is_inverted start none = false
is_inverted start (some b) = is_gt (compare_bytes (or_empty start) b)

-- Bounds that iteration accepts: none empty but not nil, and not inverted.
pub record IsRange (start end : Slice) : Type 0 where
  pub start_lem : is_empty start ≡ false
  pub end_lem : is_empty end ≡ false
  pub ordered : is_inverted start end ≡ false

-- The entries are the keys of the range that have a value, in the direction of the iteration.
pub record Iterates (asc : Bool) (view : Bytes → Slice) (start end : Slice) (items : Iter)
    : Type 0 where
  pub sorted : IsSorted (direction asc) items
  pub non_nil : IsNonNil items
  pub exact :
      (k : Bytes)
      → join (find (direction asc) k items) ≡ (if in_domain k start end then view k else none)

-- `view` is the abstract content; each operation returns the new state, since a store that wraps
-- another one may move its caches even in a read.
pub record KvStore : Type 1 where
  pub State : Type 0
  pub IsOk : State → Type 0
  pub view : State → Bytes → Slice
  pub get : State → Bytes → Result Slice
  pub set : State → Bytes → Slice → Result State
  pub delete : State → Bytes → Result State
  pub iterator : State → Slice → Slice → Bool → Result (Iter × State)
  -- What a Set, a Delete or an iteration that panics leaves.
  pub failed_set : State → Bytes → Slice → State
  pub failed_delete : State → Bytes → State
  pub failed_iterator : State → Slice → Slice → Bool → State
  pub get_lem : (s : State) (k : Bytes) → IsOk s → IsKey k → get s k ≡ ok (view s k)
  pub set_lem :
      (s : State) (k v : Bytes)
      → IsOk s
      → IsKey k
      → IsValue v
      → (s' : State) × (set s k (some v) ≡ ok s')
        × IsOk s'
        × ((j : Bytes) → view s' j ≡ (if bytes_eq j k then some v else view s j))
  pub delete_lem :
      (s : State) (k : Bytes)
      → IsOk s
      → IsKey k
      → (s' : State) × (delete s k ≡ ok s')
        × IsOk s'
        × ((j : Bytes) → view s' j ≡ (if bytes_eq j k then none else view s j))
  pub iterator_lem :
      (s : State) (start end : Slice) (asc : Bool)
      → IsOk s
      → IsRange start end
      → (items : Iter) × (s' : State) × (iterator s start end asc ≡ ok (items, s'))
        × IsOk s'
        × ((j : Bytes) → view s' j ≡ view s j)
        × Iterates asc (view s) start end items
