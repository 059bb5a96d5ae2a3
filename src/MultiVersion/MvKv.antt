-- ===== src/MultiVersion/MvKv.antt =====
-- multiversion/mvkv.go, `VersionIndexedStore`: the store that one transaction sees. Its reads and writes
-- are kept in a read set and a write set. The abort channel is the list of the aborts that it holds; it
-- has room for `capacity` of them. Iteration is left out.
pub mod View
pub mod Blocked
pub mod Verdict
pub mod Current
pub mod Validation
use melodiasdk_io_store.Prelude.{
  ℕ, Bool, true, false, Option, List, [], ◌∷◌, ◌++◌, none, some, Result, ok, panic, ◌||◌, not,
  length, ltb, if◌then◌else◌, is_some, index_out_of_range, estimate_read, readset_conflict,
  not_implemented,
}
use melodiasdk_io_store.Method.{Method, ◌>>=◌, ◌>>◌, pure, raise}
use melodiasdk_io_store.Bytes.{Bytes, Slice}
use melodiasdk_io_store.SyncMap.{load, store}
use melodiasdk_io_store.Types.KvStore.{KvStore}
use melodiasdk_io_store.Types.Validity.{assert_valid_key}
use melodiasdk_io_store.MultiVersion.ValueItem.{ValueItem, is_estimate, is_deleted}
use melodiasdk_io_store.MultiVersion.Tracker.{WriteSet, ReadSet, IterationTracker, Iterateset}
use melodiasdk_io_store.MultiVersion.Interface.{Abort, new_estimate_abort, MultiVersionStore}
use melodiasdk_io_store.MultiVersion.ListStore.{slice_eq, sort_keys, keys_of}

-- `range store.readset[keyStr]` with `bytes.Equal`.
abbrev pub contains : Slice → List Slice → Bool
contains v [] = false
contains v (w ∷ l) = slice_eq v w || contains v l

-- The value of a version, and nil for a deleted one.
unfoldable pub version_value : ValueItem → Slice
unfolding is_deleted
version_value v = if is_deleted v then none else v.value

-- The values that were read under a key; a missing key has none.
abbrev pub vals_of : Option (List Slice) → List Slice
vals_of (some vals) = vals
vals_of none = []

module _ (p : KvStore) (m : MultiVersionStore) where
  pub record VersionIndexedStore : Type 0 where
    pub readset : ReadSet
    pub writeset : WriteSet
    pub iterateset : Iterateset
    pub multi_version_store : m.State
    pub parent : p.State
    pub transaction_index : ℕ
    pub incarnation : ℕ
    pub abort_channel : List Abort
    pub capacity : ℕ
    pub total_task : ℕ

  unfoldable pub new_version_indexed_store :
      p.State → m.State → ℕ → ℕ → List Abort → ℕ → ℕ → VersionIndexedStore
  new_version_indexed_store parent mvs transaction_index incarnation abort_channel capacity
        total_task =
      record {
        readset = [];
        writeset = [];
        iterateset = [];
        multi_version_store = mvs;
        parent = parent;
        transaction_index = transaction_index;
        incarnation = incarnation;
        abort_channel = abort_channel;
        capacity = capacity;
        total_task = total_task;
      }

  abbrev lift : {A : Type 0} → Result A → Method VersionIndexedStore A
  lift r s = (r, s)

  -- A full channel drops the abort.
  unfoldable pub write_abort : Abort → VersionIndexedStore → VersionIndexedStore
  write_abort abort s =
      if ltb (length s.abort_channel) s.capacity
      then record s { abort_channel = s.abort_channel ++ abort ∷ [] }
      else s

  unfoldable pub update_readset : Bytes → Slice → VersionIndexedStore → VersionIndexedStore
  update_readset key value s =
      let vals = vals_of (load key s.readset) in
      record s {
        readset = store key (if contains value vals then vals else vals ++ value ∷ []) s.readset;
      }

  unfoldable pub parse_value_and_update_readset :
      Bytes → ValueItem → Method VersionIndexedStore Slice
  unfolding version_value update_readset
  parse_value_and_update_readset key v s =
      (ok (version_value v), update_readset key (version_value v) s)

  unfoldable pub get_parent : Bytes → Method VersionIndexedStore Slice
  unfolding update_readset
  get_parent key s = elim (p.get s.parent key) [
    | ok parent_value ↦ (ok parent_value, update_readset key parent_value s)
    | panic e ↦ (panic e, s)
  ]

  -- What `Get` does with the version that it found, if any.
  unfoldable pub get_version : Bytes → Option ValueItem → Method VersionIndexedStore Slice
  unfolding is_estimate write_abort parse_value_and_update_readset get_parent new_estimate_abort
  get_version key none s = get_parent key s
  get_version key (some v) s =
      if is_estimate v
      then (panic estimate_read, write_abort (new_estimate_abort v.index) s)
      else parse_value_and_update_readset key v s

  unfoldable pub get_cached : Bytes → Method VersionIndexedStore Slice
  unfolding get_version
  get_cached key s = elim (load key s.writeset) [
    | some value ↦ (ok value, s)
    | none ↦ elim (load key s.readset) [
      | some [] ↦ (panic index_out_of_range, s)
      | some (value ∷ l) ↦ (ok value, s)
      | none ↦
          let (found, mvs) =
            m.latest_before_expansion s.multi_version_store s.transaction_index key in
          get_version key found (record s { multi_version_store = mvs })
    ]
  ]

  unfoldable pub get : Bytes → Method VersionIndexedStore Slice
  unfolding get_cached
  get key = do lift (assert_valid_key key); get_cached key

  unfoldable pub has : Bytes → Method VersionIndexedStore Bool
  unfolding get
  has key = do value ← get key; pure (is_some value)

  unfoldable pub set_value : Bytes → Slice → Method VersionIndexedStore (Unit {0})
  set_value key value = do
    lift (assert_valid_key key)
    λ s. (ok tt, record s { writeset = store key value s.writeset })

  unfoldable pub set : Bytes → Slice → Method VersionIndexedStore (Unit {0})
  unfolding set_value
  set key value = do lift (assert_valid_key key); set_value key value

  unfoldable pub delete : Bytes → Method VersionIndexedStore (Unit {0})
  unfolding set_value
  delete key = do lift (assert_valid_key key); set_value key none

  -- One entry of the read set against the version before the transaction, if any.
  unfoldable pub validate_value : Bytes → Slice → Option ValueItem → Method VersionIndexedStore Bool
  unfolding is_estimate is_deleted write_abort new_estimate_abort
  validate_value key value (some v) s =
      if is_estimate v
      then (ok false, write_abort (new_estimate_abort v.index) s)
      else if is_deleted v
      then (ok (not (is_some value)), s)
      else (ok (slice_eq value v.value), s)
  validate_value key value none s = elim (p.get s.parent key) [
    | ok parent_value ↦
        if slice_eq parent_value value then (ok true, s) else (panic readset_conflict, s)
    | panic e ↦ (panic e, s)
  ]

  unfoldable pub validate_key : Bytes → Method VersionIndexedStore Bool
  unfolding validate_value
  validate_key key s = elim (load key s.readset) [
    | some (value ∷ []) ↦
        validate_value key value (m.latest_before s.multi_version_store s.transaction_index key) s
    | some (value ∷ w ∷ l) ↦ (ok false, s)
    | some [] ↦ (ok false, s)
    | none ↦ (ok false, s)
  ]

  unfoldable pub validate_keys : List Bytes → Method VersionIndexedStore Bool
  unfolding validate_key
  validate_keys [] = pure true
  validate_keys (key ∷ keys) =
      let rest = validate_keys keys in
      do valid ← validate_key key; if valid then rest else pure false

  unfoldable pub validate_readset : Method VersionIndexedStore Bool
  unfolding validate_keys
  validate_readset s = validate_keys (sort_keys (keys_of s.readset)) s

  unfoldable pub new_key : Bytes → ℕ → VersionIndexedStore → VersionIndexedStore
  new_key key total_task s = record s {
    multi_version_store = m.new_key s.multi_version_store key total_task;
  }

  -- A call on the multiversion store.
  abbrev on_versions : (m.State → Result m.State) → Method VersionIndexedStore (Unit {0})
  on_versions f s = elim (f s.multi_version_store) [
    | ok mvs ↦ (ok tt, record s { multi_version_store = mvs })
    | panic e ↦ (panic e, s)
  ]

  -- `SetReadset` and `SetIterateset`, unless there is nothing to keep.
  abbrev keep_readset : Method VersionIndexedStore (Unit {0})
  keep_readset s =
      if ltb 0 (length s.readset)
      then on_versions (λ mvs. m.set_readset mvs s.transaction_index s.readset) s
      else (ok tt, s)

  abbrev keep_iterateset : Method VersionIndexedStore (Unit {0})
  keep_iterateset s =
      if ltb 0 (length s.iterateset)
      then on_versions (λ mvs. m.set_iterateset mvs s.transaction_index s.iterateset) s
      else (ok tt, s)

  unfoldable pub write_to_multi_version_store : Method VersionIndexedStore (Unit {0})
  write_to_multi_version_store = do
    λ s.
        on_versions
          (λ mvs. m.set_writeset mvs s.transaction_index s.incarnation s.writeset s.total_task) s
    keep_readset
    keep_iterateset

  unfoldable pub write_estimates_to_multi_version_store : Method VersionIndexedStore (Unit {0})
  write_estimates_to_multi_version_store s =
      on_versions (λ mvs. m.set_estimated_writeset mvs s.transaction_index s.incarnation s.writeset)
        s

  unfoldable pub update_iterate_set : IterationTracker → VersionIndexedStore → VersionIndexedStore
  update_iterate_set tracker s = record s { iterateset = s.iterateset ++ tracker ∷ [] }

  -- The operations that always panic.
  unfoldable pub write : Method VersionIndexedStore (Unit {0})
  write = raise not_implemented
