-- ===== src/CacheKv/Store/Iterate.antt =====
-- `Iterator` and `ReverseIterator` of cachekv/store.go: the whole iteration against the view.
use melodiasdk_io_store.Prelude.{◌≡◌, Bool, ok, arith}
use melodiasdk_io_store.Bytes.{Bytes, Slice}
use melodiasdk_io_store.Iterator.{Iter}
use melodiasdk_io_store.Types.KvStore.{KvStore, KeyDomain, IsRange, Iterates}
use melodiasdk_io_store.CacheKv.BTree.{BTreeG, check_bounds}
use melodiasdk_io_store.CacheKv.MemIterator.{btree_iterator, new_mem_iterator}
use melodiasdk_io_store.CacheKv.MemIterator.Range.{mem_iteration}
use melodiasdk_io_store.CacheKv.Merge.{CacheMergeIterator, collect_all}
use melodiasdk_io_store.CacheKv.Merge.Collect.{merge_iteration}
use melodiasdk_io_store.CacheKv.Store.{Store, dirty_items, iterator}
use melodiasdk_io_store.CacheKv.Store.View.{IsOk, view}
use melodiasdk_io_store.CacheKv.Store.Dirty.{dirty_items_lem}

module _ (b : BTreeG) (p : KvStore) (d : KeyDomain) where
  bounds_ok :
      (start end : Slice) (t : b.Tree) (asc : Bool)
      → IsRange start end
      → btree_iterator b start end t asc ≡ ok (new_mem_iterator b start end t asc)
  unfolding btree_iterator check_bounds
  bounds_ok start end t asc h = rw (h.start_lem, h.end_lem)

  -- Moving a parent on, where it shows the same, keeps the store.
  IsOk-parent :
      (s : Store b p d) (q : p.State)
      → p.IsOk q
      → IsOk b p d s
      → IsOk b p d (record s { parent = q })
  IsOk-parent s q h o = record {
    parent_ok = h;
    map = o.map;
    good = o.good;
    unsorted_map = o.unsorted_map;
    pending = o.pending;
    synced = o.synced;
  }

  -- An iterator over a range that is not inverted is built without a panic, and its whole iteration
  -- visits, in its direction, exactly the keys of the range that the store shows a value for, each with
  -- that value. The store shows the same afterwards.
  pub iterator_lem :
      (s : Store b p d) (start end : Slice) (asc : Bool)
      → IsOk b p d s
      → IsRange start end
      → (it : CacheMergeIterator) × (s' : Store b p d) × (r : Iter) × (iterator b p d s start end
            asc
          ≡ ok (it, s'))
        × (collect_all it ≡ ok r)
        × IsOk b p d s'
        × ((j : Bytes) → view b p d s' j ≡ view b p d s j)
        × Iterates asc (view b p d s) start end r
  unfolding iterator
  iterator_lem s start end asc o h =
      let s' = dirty_items b p d start end s in
      let (t, et, o', ec, ep, ft) = dirty_items_lem b p d s start end o h.ordered in
      let (c, eq, ic) = b.copy_lem t in
      let (ps, q, ei, oq, vq, ip) = p.iterator_lem s'.parent start end asc o'.parent_ok h in
      let (cs, em, sc, fc) = mem_iteration b start end c asc in
      let (it, r, e1, e2, m) = merge_iteration asc ps cs ip.sorted sc ip.non_nil in
      (
        it,
        record s' { parent = q },
        r,
        rw (et, eq, ei, bounds_ok start end c asc h, em, e1),
        e2,
        IsOk-parent s' q oq o',
        λ j. ground (arith, ec, ep, vq j),
        record {
          sorted = m.sorted;
          non_nil = m.non_nil;
          exact = λ k. ground (arith, m.same k, fc k, ic, ft k, ip.exact k, ep);
        },
      )
