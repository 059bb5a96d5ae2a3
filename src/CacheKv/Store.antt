-- ===== src/CacheKv/Store.antt =====
-- cachekv/store.go: the cache over a parent store. The parent is any `KvStore`; a `sync.Map` is a map
-- whose `Range` order is not fixed; the mutex is taken whole by each operation, so an operation is one
-- step. `iterator` gives the merged iterator as the source builds it.
pub mod View
pub mod Flush
pub mod Dirty
pub mod Iterate
pub mod Nested
use melodiasdk_io_store.Prelude.{
  ℕ, suc, Bool, true, false, List, [], ◌∷◌, Option, none, some, Result, ok, ◌>>=◌, ◌>>◌, length,
  is_some, if◌then◌else◌, ◌&&◌, not,
}
use melodiasdk_io_store.Bytes.{Bytes, Slice, compare_bytes, is_lt}
use melodiasdk_io_store.SyncMap.{SyncMap, load, store, remove}
use melodiasdk_io_store.Iterator.{Iter, Item}
use melodiasdk_io_store.Types.Validity.{assert_valid_key, assert_valid_value}
use melodiasdk_io_store.Types.KvStore.{KvStore, KeyDomain, is_inverted}
use melodiasdk_io_store.CacheKv.BTree.{BTreeG, BTree, is_nil, new_btree}
use melodiasdk_io_store.CacheKv.MemIterator.{entries, btree_iterator}
use melodiasdk_io_store.CacheKv.Merge.{CacheMergeIterator, new_cache_merge_iterator}

-- `cValue`: dirty if the value differs from the underlying one. A nil value is a deletion.
pub record CValue : Type 0 where
  pub value : Slice
  pub dirty : Bool

pub data SortState : Type 0 where
  state_unsorted state_already_sorted : SortState

-- `sort.Slice` by key.
insert_pair : Item → List Item → List Item
insert_pair x [] = x ∷ []
insert_pair x (y ∷ l) = if is_lt (compare_bytes y.0 x.0) then y ∷ insert_pair x l else x ∷ y ∷ l

unfoldable pub sort_pairs : List Item → List Item
unfolding insert_pair
sort_pairs [] = []
sort_pairs (x ∷ l) = insert_pair x (sort_pairs l)

module _ (b : BTreeG) (p : KvStore) (d : KeyDomain) where
  pub record Store : Type 0 where
    pub cache : SyncMap CValue
    pub unsorted_cache : SyncMap (Unit {0})
    pub sorted_cache : BTree b
    pub parent : p.State

  unfoldable pub new_store : p.State → Store
  new_store parent = record {
    cache = [];
    unsorted_cache = [];
    sorted_cache = none;
    parent = parent;
  }

  unfoldable pub get_from_cache : Store → Bytes → Result Slice
  get_from_cache s key = elim (load key s.cache) [
    | some cv ↦ ok cv.value
    | none ↦ p.get s.parent key
  ]

  unfoldable pub get : Store → Bytes → Result Slice
  unfolding get_from_cache
  get s key = do assert_valid_key key; get_from_cache s key

  unfoldable pub set_cache_value : Store → Bytes → Slice → Bool → Store
  set_cache_value s key value dirty = record s {
    cache = store key (record { value = value; dirty = dirty }) s.cache;
    unsorted_cache = if dirty then store key tt s.unsorted_cache else s.unsorted_cache;
  }

  unfoldable pub set : Store → Bytes → Slice → Result Store
  set s key value = do
    assert_valid_key key
    assert_valid_value value
    ok (set_cache_value s key value true)

  unfoldable pub has : Store → Bytes → Result Bool
  has s key = do value ← get s key; ok (is_some value)

  unfoldable pub delete : Store → Bytes → Result Store
  delete s key = do assert_valid_key key; ok (set_cache_value s key none true)

  -- The body of `Range` in `Write`.
  unfoldable pub write_entry : p.State → Bytes → CValue → Result p.State
  write_entry parent key cv =
      if cv.dirty
      then elim cv.value [ some v ↦ p.set parent key (some v) | none ↦ p.delete parent key ]
      else ok parent

  unfoldable pub write_all : SyncMap CValue → p.State → Result p.State
  write_all [] parent = ok parent
  write_all ((key, cv) ∷ m) parent = do parent' ← write_entry parent key cv; write_all m parent'

  unfoldable pub write : Store → Result Store
  write s = do parent ← write_all s.cache s.parent; ok (record s { parent = parent })

  -- The pairs that `Range` over `unsortedCache` appends.
  unfoldable pub unsorted_pairs : SyncMap (Unit {0}) → SyncMap CValue → Slice → Slice → List Item
  unsorted_pairs [] cache start end = []
  unsorted_pairs ((key, u) ∷ m) cache start end =
      let rest = unsorted_pairs m cache start end in
      if d.is_key_in_domain key start end
      then elim (load key cache) [ some cv ↦ (key, cv.value) ∷ rest | none ↦ rest ]
      else rest

  unfoldable pub delete_keys_from_unsorted_cache :
      List Item → SyncMap (Unit {0}) → SyncMap (Unit {0})
  delete_keys_from_unsorted_cache [] m = m
  delete_keys_from_unsorted_cache ((key, v) ∷ l) m =
      delete_keys_from_unsorted_cache l (remove key m)

  unfoldable pub set_items : List Item → b.Tree → b.Tree
  set_items [] t = t
  set_items ((key, v) ∷ l) t = set_items l (b.set_item t key v)

  abbrev pub or_new : BTree b → b.Tree
  or_new none = b.new_tree
  or_new (some t) = t

  unfoldable pub clear_unsorted_cache_subset : List Item → SortState → Store → Store
  clear_unsorted_cache_subset unsorted state s =
      let sorted : List Item = elim state [
        | state_unsorted ↦ sort_pairs unsorted
        | state_already_sorted ↦ unsorted
      ] in
      record s {
        unsorted_cache = delete_keys_from_unsorted_cache unsorted s.unsorted_cache;
        sorted_cache = some (set_items sorted (or_new s.sorted_cache));
      }

  unfoldable pub dirty_items : Slice → Slice → Store → Store
  unfolding clear_unsorted_cache_subset
  dirty_items start end s =
      if is_inverted start end
      then s
      else clear_unsorted_cache_subset (unsorted_pairs s.unsorted_cache s.cache start end)
          SortState.state_already_sorted s

  unfoldable pub iterator : Store → Slice → Slice → Bool → Result (CacheMergeIterator × Store)
  iterator s start end ascending = do
    let s' = dirty_items start end s
    iso_sorted_cache ← b.copy_tree s'.sorted_cache
    (parent, parent') ← p.iterator s'.parent start end ascending
    m ← btree_iterator b start end iso_sorted_cache ascending
    cache ← entries b (suc (length (b.items iso_sorted_cache))) m
    it ← new_cache_merge_iterator parent cache ascending
    ok (it, record s' { parent = parent' })
