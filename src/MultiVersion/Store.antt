-- ===== src/MultiVersion/Store.antt =====
-- multiversion/store.go, `Store`: the versions in a `sync.Map`, whose entries may be nil. The environment
-- variable `versionList` is a parameter: whether it is set. The two kinds of items are behind the interface
-- `MultiVersionValue` of multiversion/data_structures.go. The validation is left out.
pub mod Commit
use melodiasdk_io_store.Prelude.{
  ℕ, zero, suc, Bool, true, false, List, [], ◌∷◌, ◌++◌, Option, none, some, Result, ok, panic,
  ◌>>=◌, ◌==◌, if◌then◌else◌, is_some, type_assertion, should_not_happen, map,
}
use melodiasdk_io_store.Bytes.{Bytes, Slice}
use melodiasdk_io_store.SyncMap.{SyncMap, load, store}
use melodiasdk_io_store.Types.KvStore.{KvStore}
use melodiasdk_io_store.MultiVersion.ValueItem.{ValueItem, is_estimate, is_deleted}
use melodiasdk_io_store.MultiVersion.Tracker.{WriteSet, ReadSet, Iterateset}
use melodiasdk_io_store.MultiVersion.ListStore.{sort_keys, keys_of}

-- The items, with the constructors of both kinds.
pub record MultiVersionValue : Type 1 where
  pub State : Type 0
  pub new_multi_version_item : State
  pub new_multi_version_list_item : ℕ → State
  pub get_latest : State → Option ValueItem
  pub get_latest_non_estimate : State → Option ValueItem
  pub get_latest_before_index : State → ℕ → Option ValueItem
  pub set : State → ℕ → ℕ → Bytes → Result State
  pub set_estimate : State → ℕ → ℕ → Result State
  pub delete : State → ℕ → ℕ → Result State
  pub remove : State → ℕ → Result State

-- A `sync.Map` with transaction indices as keys.
abbrev pub IndexMap : Type 0 → Type 0
IndexMap A = List (ℕ × A)

unfoldable pub load_at : {A : Type 0} → ℕ → IndexMap A → Option A
load_at i [] = none
load_at i ((j, a) ∷ m) = let rest = load_at i m in if i == j then some a else rest

unfoldable pub delete_at : {A : Type 0} → ℕ → IndexMap A → IndexMap A
delete_at i [] = []
delete_at i ((j, a) ∷ m) = let rest = delete_at i m in if i == j then rest else (j, a) ∷ rest

unfoldable pub store_at : {A : Type 0} → ℕ → A → IndexMap A → IndexMap A
unfolding delete_at
store_at i a m = (i, a) ∷ delete_at i m

module _ (v : MultiVersionValue) where
  abbrev pub ValueMap : Type 0
  ValueMap = SyncMap (Option v.State)

  -- `val.(MultiVersionValue)`
  unfoldable pub as_value : Option v.State → Result v.State
  as_value none = panic type_assertion
  as_value (some item) = ok item

  -- The readers of an entry: none where there is no entry.
  unfoldable pub read_value :
      (v.State → Option ValueItem) → ValueMap → Bytes → Result (Option ValueItem)
  unfolding as_value
  read_value f m key = elim (load key m) [
    | none ↦ ok none
    | some val ↦ do item ← as_value val; ok (f item)
  ]

  -- An entry is changed, as by a method of its item.
  unfoldable pub change :
      (v.State → Result v.State) → ValueMap → Bytes → Option v.State → Result ValueMap
  unfolding as_value
  change f m key val = do item ← as_value val; item' ← f item; ok (store key (some item') m)

  unfoldable pub remove_keys : ℕ → WriteSet → ValueMap → List Bytes → Result ValueMap
  unfolding change
  remove_keys index writeset m [] = ok m
  remove_keys index writeset m (key ∷ keys) = do
    m' ←
        (if is_some (load key writeset) then ok m else elim (load key m) [
          | none ↦ ok m
          | some val ↦ change (λ item. v.remove item index) m key val
        ])
    remove_keys index writeset m' keys

  -- `LoadOrStore`
  abbrev pub load_or_store : v.State → ValueMap → Bytes → Option v.State
  load_or_store item m key = elim (load key m) [ some val ↦ val | none ↦ some item ]

  unfoldable pub estimate_keys : v.State → ℕ → ℕ → ValueMap → List Bytes → Result ValueMap
  unfolding change
  estimate_keys item index incarnation m [] = ok m
  estimate_keys item index incarnation m (key ∷ keys) = do
    m' ← change (λ i. v.set_estimate i index incarnation) m key (load_or_store item m key)
    estimate_keys item index incarnation m' keys

  abbrev pub write_value : ℕ → ℕ → Slice → v.State → Result v.State
  write_value index incarnation none item = v.delete item index incarnation
  write_value index incarnation (some value) item = v.set item index incarnation value

  -- The loop of `SetWriteset`; `item` is what a missing key starts with.
  unfoldable pub write_items : v.State → ℕ → ℕ → ValueMap → WriteSet → Result ValueMap
  unfolding change
  write_items item index incarnation m [] = ok m
  write_items item index incarnation m ((key, value) ∷ writeset) = do
    m' ← change (write_value index incarnation value) m key (load_or_store item m key)
    write_items item index incarnation m' writeset

module _ (v : MultiVersionValue) (p : KvStore) (version_list : Bool) where
  pub record Store : Type 0 where
    pub multi_version_map : ValueMap v
    pub tx_writeset_keys : IndexMap (List Bytes)
    pub tx_read_sets : IndexMap ReadSet
    pub tx_iterate_sets : IndexMap Iterateset
    pub parent_store : p.State

  unfoldable pub new_multi_version_store : p.State → Store
  new_multi_version_store parent_store = record {
    multi_version_map = [];
    tx_writeset_keys = [];
    tx_read_sets = [];
    tx_iterate_sets = [];
    parent_store = parent_store;
  }

  unfoldable pub get_latest_of : Store → Bytes → Result (Option ValueItem)
  unfolding read_value
  get_latest_of s key = read_value v v.get_latest s.multi_version_map key

  unfoldable pub latest_before : Store → ℕ → Bytes → Result (Option ValueItem)
  unfolding read_value
  latest_before s index key =
      read_value v (λ item. v.get_latest_before_index item index) s.multi_version_map key

  unfoldable pub has : Store → ℕ → Bytes → Result Bool
  unfolding latest_before
  has s index key = do found ← latest_before s index key; ok (is_some found)

  unfoldable pub remove_old_writeset : Store → ℕ → WriteSet → Result Store
  unfolding load_at delete_at remove_keys
  remove_old_writeset s index new_write_set = elim (load_at index s.tx_writeset_keys) [
    | none ↦ ok s
    | some keys ↦ do
      m ← remove_keys v index new_write_set s.multi_version_map keys
      ok (record s { multi_version_map = m; tx_writeset_keys = delete_at index s.tx_writeset_keys })
  ]

  unfoldable pub new_item : ℕ → v.State
  new_item total_task =
      if version_list then v.new_multi_version_item else v.new_multi_version_list_item total_task

  unfoldable pub set_writeset : Store → ℕ → ℕ → WriteSet → ℕ → Result Store
  unfolding remove_old_writeset write_items new_item store_at
  set_writeset s index incarnation writeset total_task = do
    s' ← remove_old_writeset s index writeset
    m ← write_items v (new_item total_task) index incarnation s'.multi_version_map writeset
    ok (record s' {
      multi_version_map = m;
      tx_writeset_keys = store_at index (sort_keys (keys_of writeset)) s'.tx_writeset_keys;
    })

  unfoldable pub invalidate_writeset : Store → ℕ → ℕ → ℕ → Result Store
  unfolding load_at estimate_keys
  invalidate_writeset s index incarnation total_task = elim (load_at index s.tx_writeset_keys) [
    | none ↦ ok s
    | some keys ↦ do
      m ←
          estimate_keys v (v.new_multi_version_list_item total_task) index incarnation
            s.multi_version_map keys
      ok (record s { multi_version_map = m })
  ]

  unfoldable pub set_estimated_writeset : Store → ℕ → ℕ → WriteSet → Result Store
  unfolding remove_old_writeset estimate_keys store_at
  set_estimated_writeset s index incarnation writeset = do
    s' ← remove_old_writeset s index writeset
    m ←
        estimate_keys v (v.new_multi_version_list_item 10000) index incarnation s'.multi_version_map
          (keys_of writeset)
    ok (record s' {
      multi_version_map = m;
      tx_writeset_keys = store_at index (sort_keys (keys_of writeset)) s'.tx_writeset_keys;
    })

  unfoldable pub get_all_writeset_keys : Store → IndexMap (List Bytes)
  get_all_writeset_keys s = s.tx_writeset_keys

  unfoldable pub set_readset : Store → ℕ → ReadSet → Store
  unfolding store_at
  set_readset s index readset = record s { tx_read_sets = store_at index readset s.tx_read_sets }

  unfoldable pub get_readset : Store → ℕ → Option ReadSet
  unfolding load_at
  get_readset s index = load_at index s.tx_read_sets

  unfoldable pub clear_readset : Store → ℕ → Store
  unfolding delete_at
  clear_readset s index = record s { tx_read_sets = delete_at index s.tx_read_sets }

  unfoldable pub set_iterateset : Store → ℕ → Iterateset → Store
  unfolding store_at
  set_iterateset s index iterateset = record s {
    tx_iterate_sets = store_at index iterateset s.tx_iterate_sets;
  }

  unfoldable pub get_iterateset : Store → ℕ → Option Iterateset
  unfolding load_at
  get_iterateset s index = load_at index s.tx_iterate_sets

  unfoldable pub clear_iterateset : Store → ℕ → Store
  unfolding delete_at
  clear_iterateset s index = record s { tx_iterate_sets = delete_at index s.tx_iterate_sets }

  -- The keys that `CollectIteratorItems` puts into its tree.
  unfoldable pub collect_iterator_items : Store → ℕ → List Bytes
  unfolding load_at
  collect_iterator_items s zero = []
  collect_iterator_items s (suc i) =
      collect_iterator_items s i
      ++ (elim (load_at i s.tx_writeset_keys) [ some keys ↦ keys | none ↦ [] ])

  -- A new key gets a nil entry, unless `versionList` is set.
  unfoldable pub new_key : Store → Bytes → ℕ → Store
  new_key s key total_task = if is_some (load key s.multi_version_map) then s else record s {
    multi_version_map =
        store key (if version_list then some v.new_multi_version_item else none)
          s.multi_version_map;
  }

  -- What `WriteLatestToStore` does with the latest version that is no estimate.
  unfoldable pub write_version : p.State → Bytes → Option ValueItem → Result p.State
  unfolding is_estimate is_deleted
  write_version parent key none = ok parent
  write_version parent key (some value) =
      if is_estimate value
      then panic should_not_happen
      else if is_deleted value
      then p.delete parent key
      else elim value.value [ some b ↦ p.set parent key (some b) | none ↦ ok parent ]

  unfoldable pub write_key : ValueMap v → p.State → Bytes → Result p.State
  unfolding read_value write_version
  write_key m parent key = do
    found ← read_value v v.get_latest_non_estimate m key
    write_version parent key found

  unfoldable pub write_keys : ValueMap v → p.State → List Bytes → Result p.State
  unfolding write_key
  write_keys m parent [] = ok parent
  write_keys m parent (key ∷ keys) = do parent' ← write_key m parent key; write_keys m parent' keys

  unfoldable pub write_latest_to_store : Store → Result Store
  unfolding write_keys
  write_latest_to_store s = do
    parent ← write_keys s.multi_version_map s.parent_store (sort_keys (keys_of s.multi_version_map))
    ok (record s { parent_store = parent })
