-- ===== src/MultiVersion/ListStore.antt =====
-- multiversion/list_store.go: the versions that the transactions of a block write, by key, with the write
-- set, the read set and the iterations of each transaction. A map of Go is a list in the order of the
-- visits. Telemetry and printing are left out.
pub mod View
pub mod Writesets
pub mod Readsets
pub mod Instance
pub mod Keys
use melodiasdk_io_store.Prelude.{
  ℕ, zero, suc, ◌+◌, ◌<◌, Bool, true, false, not, ◌&&◌, List, [], ◌∷◌, ◌++◌, Option, none, some,
  Result, ok, panic, ◌>>=◌, ◌>>◌, length, get_elem?, set, ltb, ◌==◌, if◌then◌else◌, is_some,
  index_out_of_range, map_get_nil, should_not_happen, map,
}
use melodiasdk_io_store.Bytes.{Bytes, Slice, compare_bytes, is_lt, bytes_eq}
use melodiasdk_io_store.SyncMap.{SyncMap, load}
use melodiasdk_io_store.Types.KvStore.{KvStore, or_empty}
use melodiasdk_io_store.MultiVersion.ValueItem.{ValueItem, is_estimate, is_deleted}
use melodiasdk_io_store.MultiVersion.ListItem.{
  MultiVersionListItem, new_multi_version_list_item, get_latest, get_latest_non_estimate,
  get_latest_before_index, get_latest_before_index_expansion, set_value, set_estimate, delete,
  remove,
}
use melodiasdk_io_store.MultiVersion.ShardedMap
use melodiasdk_io_store.MultiVersion.ShardedMap.{ShardedMap, get, set_key, new_sharded_map}
use melodiasdk_io_store.MultiVersion.Tracker.{WriteSet, ReadSet, Iterateset}

abbrev pub VersionMap : Type 0
VersionMap = ShardedMap MultiVersionListItem

-- A nil slice of keys counts as an empty one. The field `multiVersionValue`, which nothing uses, is left out.
pub record VersionStoreIndexKeys : Type 0 where
  pub tx_writeset_keys : List Bytes
  pub readset : ReadSet
  pub iterateset : Iterateset

abbrev pub no_keys : VersionStoreIndexKeys
no_keys = record { tx_writeset_keys = []; readset = []; iterateset = [] }

unfoldable pub insert_key : Bytes → List Bytes → List Bytes
insert_key x [] = x ∷ []
insert_key x (y ∷ l) = if is_lt (compare_bytes y x) then y ∷ insert_key x l else x ∷ y ∷ l

-- `sort.Strings`
unfoldable pub sort_keys : List Bytes → List Bytes
unfolding insert_key
sort_keys [] = []
sort_keys (x ∷ l) = insert_key x (sort_keys l)

abbrev pub keys_of : {V : Type 0} → SyncMap V → List Bytes
keys_of [] = []
keys_of ((k, v) ∷ m) = k ∷ keys_of m

-- `bytes.Equal`, for which a nil slice is an empty one.
abbrev pub slice_eq : Slice → Slice → Bool
slice_eq a b = bytes_eq (or_empty a) (or_empty b)

-- The indices of the conflict set, sorted.
unfoldable pub add_index : ℕ → List ℕ → List ℕ
add_index i [] = i ∷ []
add_index i (j ∷ l) =
    let rest = add_index i l in if i == j then j ∷ l else if ltb i j then i ∷ j ∷ l else j ∷ rest

module _ (checksum : Bytes → ℕ) where
  -- The items under a key, read with no change.
  unfoldable pub read_item :
      {A : Type 0} → (MultiVersionListItem → Option A) → VersionMap → Bytes → Option A
  read_item f m key = elim (get checksum m key) [ some item ↦ f item | none ↦ none ]

  -- `NewKey`, which is `ShardedMap.Update`.
  unfoldable pub update : VersionMap → Bytes → ℕ → VersionMap
  update m key total_task = elim (get checksum m key) [
    | none ↦ set_key checksum m key (new_multi_version_list_item 1)
    | some value ↦
        if length value.value_list == 1
        then set_key checksum m key (new_multi_version_list_item total_task)
        else m
  ]

  -- One round of the loop of `removeOldWriteset`.
  unfoldable pub remove_key : ℕ → WriteSet → VersionMap → Bytes → Result VersionMap
  remove_key index writeset m key =
      if is_some (load key writeset) then ok m else elim (get checksum m key) [
        | none ↦ ok m
        | some item ↦ do item' ← remove item index; ok (set_key checksum m key item')
      ]

  unfoldable pub remove_keys : ℕ → WriteSet → VersionMap → List Bytes → Result VersionMap
  remove_keys index writeset m [] = ok m
  remove_keys index writeset m (key ∷ keys) = do
    m' ← remove_key index writeset m key
    remove_keys index writeset m' keys

  -- The writer that a value of a write set asks for: nil is a deletion.
  abbrev pub write_value : ℕ → ℕ → Slice → MultiVersionListItem → Result MultiVersionListItem
  write_value index incarnation none item = delete item index incarnation
  write_value index incarnation (some v) item = set_value item index incarnation (some v)

  -- One round of the loop of `SetWriteset`.
  unfoldable pub write_item : ℕ → ℕ → VersionMap → Bytes → Slice → Result VersionMap
  write_item index incarnation m key value = elim (get checksum m key) [
    | none ↦ panic map_get_nil
    | some item ↦ do
      item' ← write_value index incarnation value item
      ok (set_key checksum m key item')
  ]

  unfoldable pub write_items : ℕ → ℕ → VersionMap → WriteSet → Result VersionMap
  write_items index incarnation m [] = ok m
  write_items index incarnation m ((key, value) ∷ writeset) = do
    m' ← write_item index incarnation m key value
    write_items index incarnation m' writeset

  -- One round of the loops that leave estimates. A missing key is a nil interface.
  unfoldable pub estimate_key : ℕ → ℕ → VersionMap → Bytes → Result VersionMap
  estimate_key index incarnation m key = elim (get checksum m key) [
    | none ↦ panic map_get_nil
    | some item ↦ do item' ← set_estimate item index incarnation; ok (set_key checksum m key item')
  ]

  unfoldable pub estimate_keys : ℕ → ℕ → VersionMap → List Bytes → Result VersionMap
  estimate_keys index incarnation m [] = ok m
  estimate_keys index incarnation m (key ∷ keys) = do
    m' ← estimate_key index incarnation m key
    estimate_keys index incarnation m' keys

module _ (checksum : Bytes → ℕ) (p : KvStore) where
  pub record ListStore : Type 0 where
    pub shard_map : VersionMap
    pub keys_list : List VersionStoreIndexKeys
    pub parent_store : p.State

  -- `s.keysList[index]`
  unfoldable pub keys_at : ListStore → ℕ → Result VersionStoreIndexKeys
  keys_at s index = elim (get_elem? s.keys_list index) [
    | some keys ↦ ok keys
    | none ↦ panic index_out_of_range
  ]

  abbrev pub put_keys : ListStore → ℕ → VersionStoreIndexKeys → ListStore
  put_keys s index keys = record s { keys_list = set s.keys_list index keys }

  unfoldable pub get_latest_of : ListStore → Bytes → Option ValueItem
  unfolding read_item
  get_latest_of s key = read_item checksum get_latest s.shard_map key

  unfoldable pub new_key : ListStore → Bytes → ℕ → ListStore
  unfolding update
  new_key s key total_task = record s { shard_map = update checksum s.shard_map key total_task }

  -- `GetLatestBeforeIndex`
  unfoldable pub latest_before : ListStore → ℕ → Bytes → Option ValueItem
  unfolding read_item
  latest_before s index key =
      read_item checksum (λ item. get_latest_before_index item index) s.shard_map key

  -- `GetLatestBeforeIndexExpansion`, which may lengthen the list.
  unfoldable pub latest_before_expansion : ListStore → ℕ → Bytes → Option ValueItem × ListStore
  latest_before_expansion s index key = elim (get checksum s.shard_map key) [
    | none ↦ (none, s)
    | some item ↦
        let (found, item') = get_latest_before_index_expansion item index in
        (found, record s { shard_map = set_key checksum s.shard_map key item' })
  ]

  unfoldable pub has : ListStore → ℕ → Bytes → Bool
  unfolding read_item
  has s index key =
      is_some (read_item checksum (λ item. get_latest_before_index item index) s.shard_map key)

  unfoldable pub remove_old_writeset : ListStore → ℕ → WriteSet → Result ListStore
  unfolding remove_keys
  remove_old_writeset s index new_write_set = do
    keys ← keys_at s index
    m ← remove_keys checksum index new_write_set s.shard_map keys.tx_writeset_keys
    ok (record s { shard_map = m })

  -- `s.keysList[index].txWritesetKeys = keys`
  unfoldable pub set_writeset_keys : ListStore → ℕ → List Bytes → Result ListStore
  set_writeset_keys s index keys = do
    old ← keys_at s index
    ok (put_keys s index (record old { tx_writeset_keys = keys }))

  -- What `SetWriteset` does once the old write set is removed.
  unfoldable pub set_new_writeset : ListStore → ℕ → ℕ → WriteSet → Result ListStore
  unfolding write_items set_writeset_keys
  set_new_writeset s index incarnation [] = ok s
  set_new_writeset s index incarnation ((key, value) ∷ writeset) = do
    m ← write_items checksum index incarnation s.shard_map ((key, value) ∷ writeset)
    set_writeset_keys (record s { shard_map = m }) index
        (sort_keys (keys_of ((key, value) ∷ writeset)))

  unfoldable pub set_writeset : ListStore → ℕ → ℕ → WriteSet → ℕ → Result ListStore
  unfolding remove_old_writeset set_new_writeset
  set_writeset s index incarnation writeset total_task = do
    s' ← (if ltb 0 incarnation then remove_old_writeset s index writeset else ok s)
    set_new_writeset s' index incarnation writeset

  unfoldable pub invalidate_writeset : ListStore → ℕ → ℕ → ℕ → Result ListStore
  unfolding estimate_keys
  invalidate_writeset s index incarnation total_task = do
    keys ← keys_at s index
    m ← estimate_keys checksum index incarnation s.shard_map keys.tx_writeset_keys
    ok (record s { shard_map = m })

  unfoldable pub set_estimated_writeset : ListStore → ℕ → ℕ → WriteSet → Result ListStore
  unfolding remove_old_writeset estimate_keys set_writeset_keys
  set_estimated_writeset s index incarnation writeset = do
    s' ← remove_old_writeset s index writeset
    m ← estimate_keys checksum index incarnation s'.shard_map (keys_of writeset)
    set_writeset_keys (record s' { shard_map = m }) index (sort_keys (keys_of writeset))

  unfoldable pub get_all_writeset_keys : ListStore → List (List Bytes)
  get_all_writeset_keys s = map (λ (k : VersionStoreIndexKeys). k.tx_writeset_keys) s.keys_list

  unfoldable pub set_readset : ListStore → ℕ → ReadSet → Result ListStore
  set_readset s index readset = do
    old ← keys_at s index
    ok (put_keys s index (record old { readset = readset }))

  unfoldable pub get_readset : ListStore → ℕ → Result ReadSet
  get_readset s index = do keys ← keys_at s index; ok keys.readset

  unfoldable pub set_iterateset : ListStore → ℕ → Iterateset → Result ListStore
  set_iterateset s index iterateset = do
    old ← keys_at s index
    ok (put_keys s index (record old { iterateset = iterateset }))

  unfoldable pub get_iterateset : ListStore → ℕ → Result Iterateset
  get_iterateset s index = do keys ← keys_at s index; ok keys.iterateset

  unfoldable pub clear_readset : ListStore → ℕ → Result ListStore
  unfolding set_readset
  clear_readset s index = set_readset s index []

  unfoldable pub clear_iterateset : ListStore → ℕ → Result ListStore
  unfolding set_iterateset
  clear_iterateset s index = set_iterateset s index []

  -- The keys that `CollectIteratorItems` puts into its tree, in `rounds` rounds. Each round reads the
  -- write set of `index`.
  unfoldable pub collect_iterator_items : ListStore → ℕ → ℕ → Result (List Bytes)
  collect_iterator_items s index zero = ok []
  collect_iterator_items s index (suc rounds) = do
    rest ← collect_iterator_items s index rounds
    keys ← keys_at s index
    ok (rest ++ keys.tx_writeset_keys)

  -- One entry of the read set: whether it is valid, and the index that it conflicts with.
  unfoldable pub check_value :
      ListStore → Bytes → Slice → Option ValueItem → Result (Bool × Option ℕ)
  unfolding is_estimate is_deleted
  check_value s key value none = do
    parent_val ← p.get s.parent_store key
    ok (slice_eq parent_val value, none)
  check_value s key value (some latest) = ok (
      if is_estimate latest
      then (true, some latest.index)
      else if is_deleted latest
      then (if is_some value then (false, some latest.index) else (true, none))
      else if slice_eq latest.value value
      then (true, none)
      else (false, some latest.index))

  unfoldable pub check_entry : ListStore → ℕ → Bytes → List Slice → Result (Bool × Option ℕ)
  unfolding check_value latest_before
  check_entry s index key [] = ok (false, none)
  check_entry s index key (value ∷ []) = check_value s key value (latest_before s index key)
  check_entry s index key (value ∷ w ∷ l) = ok (false, none)

  abbrev pub add_conflict : Option ℕ → List ℕ → List ℕ
  add_conflict none l = l
  add_conflict (some i) l = add_index i l

  unfoldable pub check_entries : ListStore → ℕ → ReadSet → Result (Bool × List ℕ)
  unfolding check_entry
  check_entries s index [] = ok (true, [])
  check_entries s index ((key, value_arr) ∷ readset) = do
    (valid, conflict) ← check_entry s index key value_arr
    (rest_valid, conflicts) ← check_entries s index readset
    ok (valid && rest_valid, add_conflict conflict conflicts)

  -- `checkReadsetAtIndex`
  unfoldable pub check_readset_at_index : ListStore → ℕ → Result (Bool × List ℕ)
  unfolding check_entries
  check_readset_at_index s index = do keys ← keys_at s index; check_entries s index keys.readset
