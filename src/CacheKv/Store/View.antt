-- ===== src/CacheKv/Store/View.antt =====
-- What a client of cachekv/store.go sees, the invariant of its caches, and single reads and writes.
use melodiasdk_io_store.Prelude.{
  ◌≡◌, refl, true, [], ◌∷◌, Option, none, some, ok, arith, is_some, if◌then◌else◌,
}
use melodiasdk_io_store.Bytes.{Bytes, Slice, bytes_eq}
use melodiasdk_io_store.Bytes.Order.{direction}
use melodiasdk_io_store.Sorted.{find}
use melodiasdk_io_store.SyncMap.{SyncMap, IsMap, load, store, load-store, store-IsMap}
use melodiasdk_io_store.Types.Validity.{
  IsKey, IsValue, assert_valid_key_lem, assert_valid_value_lem,
}
use melodiasdk_io_store.Types.KvStore.{KvStore, KeyDomain}
use melodiasdk_io_store.CacheKv.BTree.{BTreeG, BTree}
use melodiasdk_io_store.CacheKv.Store.{
  CValue, Store, new_store, get, set, has, delete, set_cache_value,
}

abbrev pub cached_value : Option CValue → Option Slice
cached_value none = none
cached_value (some cv) = some cv.value

abbrev pub IsValueOk : Slice → Type 0
IsValueOk none = Unit
IsValueOk (some v) = IsValue v

-- Every entry of the cache is dirty, and its key and value passed the checks.
abbrev pub IsGood : SyncMap CValue → Type 0
IsGood [] = Unit
IsGood ((k, cv) ∷ m) = (IsKey k × (cv.dirty ≡ true) × IsValueOk cv.value) × IsGood m

pub store-IsGood :
    (k : Bytes) (v : Slice) (m : SyncMap CValue)
    → IsKey k
    → IsValueOk v
    → IsGood m
    → IsGood (store k (record { value = v; dirty = true }) m)
unfolding store
store-IsGood k v [] hk hv g = ((hk, refl, hv), tt)
store-IsGood k v ((j, cv) ∷ m) hk hv g = ground (arith, store-IsGood k v m hk hv g.1)

module _ (b : BTreeG) (p : KvStore) (d : KeyDomain) where
  -- The content of the store: the cache shadows the parent.
  abbrev pub view : Store b p d → Bytes → Slice
  view s k = elim (load k s.cache) [ some cv ↦ cv.value | none ↦ p.view s.parent k ]

  abbrev pub tree_value : BTree b → Bytes → Option Slice
  tree_value none k = none
  tree_value (some t) k = find (direction true) k (b.items t)

  -- A key that is not waiting in the unsorted cache has its cached value in the tree.
  pub record IsOk (s : Store b p d) : Type 0 where
    pub parent_ok : p.IsOk s.parent
    pub map : IsMap s.cache
    pub good : IsGood s.cache
    pub unsorted_map : IsMap s.unsorted_cache
    pub pending : (k : Bytes) → load k s.cache ≡ none → load k s.unsorted_cache ≡ none
    pub synced :
        (k : Bytes)
        → load k s.unsorted_cache ≡ none
        → tree_value s.sorted_cache k ≡ cached_value (load k s.cache)

  pub new_store-IsOk : (q : p.State) → p.IsOk q → IsOk (new_store b p d q)
  unfolding new_store load
  new_store-IsOk q h = record {
    parent_ok = h;
    map = tt;
    good = tt;
    unsorted_map = tt;
    pending = λ k e. refl;
    synced = λ k e. refl;
  }

  pub set_cache_value-IsOk :
      (s : Store b p d) (key : Bytes) (v : Slice)
      → IsOk s
      → IsKey key
      → IsValueOk v
      → IsOk (set_cache_value b p d s key v true)
  unfolding set_cache_value
  set_cache_value-IsOk s key v o hk hv = record {
    parent_ok = o.parent_ok;
    map = store-IsMap key (record { value = v; dirty = true }) s.cache o.map;
    good = store-IsGood key v s.cache hk hv o.good;
    unsorted_map = store-IsMap key tt s.unsorted_cache o.unsorted_map;
    pending = λ k e. ground (
      arith,
      load-store key k tt s.unsorted_cache,
      load-store key k (record { value = v; dirty = true }) s.cache,
      o.pending k,
    );
    synced = λ k e. ground (
      arith,
      load-store key k tt s.unsorted_cache,
      load-store key k (record { value = v; dirty = true }) s.cache,
      o.synced k,
    );
  }

  pub view-set_cache_value :
      (s : Store b p d) (key : Bytes) (v : Slice) (j : Bytes)
      → view (set_cache_value b p d s key v true) j ≡ (if bytes_eq j key then v else view s j)
  unfolding set_cache_value
  view-set_cache_value s key v j =
      ground (arith, load-store key j (record { value = v; dirty = true }) s.cache)

  -- On a valid key `Get` returns the value of the view, which is the cached one where there is an entry
  -- and the parent's otherwise, and `Has` says whether that is not nil; neither panics.
  pub get-view :
      (s : Store b p d) (k : Bytes)
      → IsOk s
      → IsKey k
      → (get b p d s k ≡ ok (view s k)) × (has b p d s k ≡ ok (is_some (view s k)))
  unfolding get has
  get-view s k o h = ground (arith, assert_valid_key_lem k h, p.get_lem s.parent k o.parent_ok h)

  -- `Set` of a valid key and value does not panic, keeps the invariant, and changes the view of that key
  -- alone, to the value.
  pub set_lem :
      (s : Store b p d) (k v : Bytes)
      → IsOk s
      → IsKey k
      → IsValue v
      → (s' : Store b p d) × (set b p d s k (some v) ≡ ok s')
        × IsOk s'
        × ((j : Bytes) → view s' j ≡ (if bytes_eq j k then some v else view s j))
  unfolding set
  set_lem s k v o hk hv = (
    set_cache_value b p d s k (some v) true,
    rw (assert_valid_key_lem k hk, assert_valid_value_lem v hv),
    set_cache_value-IsOk s k (some v) o hk hv,
    view-set_cache_value s k (some v),
  )

  -- `Delete` of a valid key does not panic, keeps the invariant, and changes the view of that key alone,
  -- to nil.
  pub delete_lem :
      (s : Store b p d) (k : Bytes)
      → IsOk s
      → IsKey k
      → (s' : Store b p d) × (delete b p d s k ≡ ok s')
        × IsOk s'
        × ((j : Bytes) → view s' j ≡ (if bytes_eq j k then none else view s j))
  unfolding delete
  delete_lem s k o hk = (
    set_cache_value b p d s k none true,
    rw (assert_valid_key_lem k hk),
    set_cache_value-IsOk s k none o hk tt,
    view-set_cache_value s k none,
  )
