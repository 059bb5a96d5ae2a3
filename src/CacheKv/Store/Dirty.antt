-- ===== src/CacheKv/Store/Dirty.antt =====
-- `dirtyItems` of cachekv/store.go: it moves the waiting entries of a range into the tree.
use melodiasdk_io_store.Prelude.{
  ◌≡◌, refl, true, false, List, [], ◌∷◌, Option, none, some, arith, if◌then◌else◌, ◌&&◌, is_some,
}
use melodiasdk_io_store.Bytes.{Bytes, Slice}
use melodiasdk_io_store.Bytes.Order.{compare_bytes_eq, direction}
use melodiasdk_io_store.Sorted.{find, find-nil}
use melodiasdk_io_store.SyncMap.{SyncMap, IsMap, load, remove, load-remove, remove-IsMap}
use melodiasdk_io_store.Iterator.{Item}
use melodiasdk_io_store.Types.KvStore.{KvStore, KeyDomain, in_domain, is_inverted}
use melodiasdk_io_store.CacheKv.BTree.{BTreeG, BTree}
use melodiasdk_io_store.CacheKv.Store.{
  CValue, Store, unsorted_pairs, delete_keys_from_unsorted_cache, set_items, or_new, dirty_items,
}
use melodiasdk_io_store.CacheKv.Store.View.{IsOk, cached_value, tree_value}

module _ (b : BTreeG) (p : KvStore) (d : KeyDomain) where
  -- The value that `dirtyItems` moves for a key: the cached one, if the key waits and is in the range.
  abbrev moved : SyncMap (Unit {0}) → SyncMap CValue → Slice → Slice → Bytes → Option Slice
  moved m cache start end k =
      if in_domain k start end && is_some (load k m) then cached_value (load k cache) else none

  load-unsorted_pairs :
      (m : SyncMap (Unit {0})) (cache : SyncMap CValue) (start end : Slice) (k : Bytes)
      → IsMap m
      → load k (unsorted_pairs b p d m cache start end) ≡ moved m cache start end k
  unfolding load unsorted_pairs
  load-unsorted_pairs [] cache start end k h = ground arith
  load-unsorted_pairs ((j, u) ∷ m) cache start end k h = ground (
    arith,
    load-unsorted_pairs m cache start end k h.1,
    d.domain_lem j start end,
    compare_bytes_eq k j,
  )

  unsorted_pairs-IsMap :
      (m : SyncMap (Unit {0})) (cache : SyncMap CValue) (start end : Slice)
      → IsMap m
      → IsMap (unsorted_pairs b p d m cache start end)
  unfolding unsorted_pairs
  unsorted_pairs-IsMap [] cache start end h = tt
  unsorted_pairs-IsMap ((j, u) ∷ m) cache start end h = ground (
    arith,
    unsorted_pairs-IsMap m cache start end h.1,
    load-unsorted_pairs m cache start end j h.1,
  )

  load-delete_keys :
      (l : List Item) (m : SyncMap (Unit {0})) (k : Bytes)
      → load k (delete_keys_from_unsorted_cache b p d l m)
        ≡ (if is_some (load k l) then none else load k m)
  unfolding delete_keys_from_unsorted_cache load
  load-delete_keys [] m k = refl
  load-delete_keys ((j, v) ∷ l) m k =
      ground (arith, load-delete_keys l (remove j m) k, load-remove j k m)

  delete_keys-IsMap :
      (l : List Item) (m : SyncMap (Unit {0}))
      → IsMap m
      → IsMap (delete_keys_from_unsorted_cache b p d l m)
  unfolding delete_keys_from_unsorted_cache
  delete_keys-IsMap [] m h = h
  delete_keys-IsMap ((j, v) ∷ l) m h = delete_keys-IsMap l (remove j m) (remove-IsMap j m h)

  find-set_items :
      (l : List Item) (t : b.Tree) (k : Bytes)
      → IsMap l
      → find (direction true) k (b.items (set_items b p d l t))
        ≡ (elim (load k l) [ some v ↦ some v | none ↦ find (direction true) k (b.items t) ])
  unfolding set_items load
  find-set_items [] t k h = refl
  find-set_items ((j, v) ∷ l) t k h =
      ground
        (arith, find-set_items l (b.set_item t j v) k h.1, b.find-set t j k v, compare_bytes_eq k j)

  find-or_new :
      (t : BTree b) (k : Bytes)
      → find (direction true) k (b.items (or_new b p d t)) ≡ tree_value b p d t k
  find-or_new none k = rw b.items-new (find-nil (direction true) k)
  find-or_new (some t) k = refl

  -- `dirtyItems` keeps the invariant and the view; where the range is not inverted, the store has a
  -- tree afterwards, and in the range the tree has exactly the cached values.
  pub dirty_items_lem :
      (s : Store b p d) (start end : Slice)
      → IsOk b p d s
      → is_inverted start end ≡ false
      → (t : b.Tree) × ((dirty_items b p d start end s).sorted_cache ≡ some t)
        × IsOk b p d (dirty_items b p d start end s)
        × ((dirty_items b p d start end s).cache ≡ s.cache)
        × ((dirty_items b p d start end s).parent ≡ s.parent)
        × ((k : Bytes)
            → in_domain k start end ≡ true
            → find (direction true) k (b.items t) ≡ cached_value (load k s.cache))
  unfolding dirty_items
  dirty_items_lem s start end o h = rw h (
      let l = unsorted_pairs b p d s.unsorted_cache s.cache start end in
      let hl = unsorted_pairs-IsMap s.unsorted_cache s.cache start end o.unsorted_map in
      (
        set_items b p d l (or_new b p d s.sorted_cache),
        refl,
        record {
          parent_ok = o.parent_ok;
          map = o.map;
          good = o.good;
          unsorted_map = delete_keys-IsMap l s.unsorted_cache o.unsorted_map;
          pending = λ k e. ground (arith, load-delete_keys l s.unsorted_cache k, o.pending k e);
          synced = λ k e. ground (
            arith,
            load-delete_keys l s.unsorted_cache k,
            find-set_items l (or_new b p d s.sorted_cache) k hl,
            find-or_new s.sorted_cache k,
            load-unsorted_pairs s.unsorted_cache s.cache start end k o.unsorted_map,
            o.synced k,
            o.pending k,
          );
        },
        refl,
        refl,
        λ k e. ground (
          arith,
          find-set_items l (or_new b p d s.sorted_cache) k hl,
          find-or_new s.sorted_cache k,
          load-unsorted_pairs s.unsorted_cache s.cache start end k o.unsorted_map,
          o.synced k,
          o.pending k,
        ),
      ))
