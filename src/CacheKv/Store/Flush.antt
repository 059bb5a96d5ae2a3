-- ===== src/CacheKv/Store/Flush.antt =====
-- `Write` of cachekv/store.go: the dirty entries go to the parent.
use melodiasdk_io_store.Prelude.{◌≡◌, refl, true, [], ◌∷◌, none, some, ok, arith, if◌then◌else◌}
use melodiasdk_io_store.Bytes.{Bytes, Slice, bytes_eq}
use melodiasdk_io_store.Bytes.Order.{compare_bytes_eq}
use melodiasdk_io_store.SyncMap.{SyncMap, IsMap, load}
use melodiasdk_io_store.Types.Validity.{IsKey}
use melodiasdk_io_store.Types.KvStore.{KvStore, KeyDomain}
use melodiasdk_io_store.CacheKv.BTree.{BTreeG}
use melodiasdk_io_store.CacheKv.Store.{CValue, Store, write_entry, write_all, write}
use melodiasdk_io_store.CacheKv.Store.View.{IsGood, IsValueOk, IsOk, view}

module _ (b : BTreeG) (p : KvStore) (d : KeyDomain) where
  write_entry_lem :
      (q : p.State) (k : Bytes) (cv : CValue)
      → p.IsOk q
      → IsKey k
      → cv.dirty ≡ true
      → IsValueOk cv.value
      → (q' : p.State) × (write_entry b p d q k cv ≡ ok q')
        × p.IsOk q'
        × ((j : Bytes) → p.view q' j ≡ (if bytes_eq j k then cv.value else p.view q j))
  unfolding write_entry
  write_entry_lem q k cv o hk hd hv = by_value cv.value refl hv
    where
      by_value :
          (v : Slice)
          → cv.value ≡ v
          → IsValueOk v
          → (q' : p.State) × (write_entry b p d q k cv ≡ ok q')
            × p.IsOk q'
            × ((j : Bytes) → p.view q' j ≡ (if bytes_eq j k then cv.value else p.view q j))
      by_value (some v) e hw =
          let (q', e1, o1, v1) = p.set_lem q k v o hk hw in
          (q', rw (hd, e, e1), o1, λ j. rw e (v1 j))
      by_value none e hw =
          let (q', e1, o1, v1) = p.delete_lem q k o hk in (q', rw (hd, e, e1), o1, λ j. rw e (v1 j))

  -- What the parent shows once the entries of `m` are written.
  abbrev written : SyncMap CValue → p.State → Bytes → Slice
  written m q j = elim (load j m) [ some cv ↦ cv.value | none ↦ p.view q j ]

  pub write_all_lem :
      (m : SyncMap CValue) (q : p.State)
      → IsMap m
      → IsGood m
      → p.IsOk q
      → (q' : p.State) × (write_all b p d m q ≡ ok q')
        × p.IsOk q'
        × ((j : Bytes) → p.view q' j ≡ written m q j)
  unfolding write_all load
  write_all_lem [] q hm g o = (q, refl, o, λ j. refl)
  write_all_lem ((k, cv) ∷ m) q hm g o =
      let (q1, e1, o1, v1) = write_entry_lem q k cv o g.0.0 g.0.1 g.0.2 in
      let (q2, e2, o2, v2) = write_all_lem m q1 hm.1 g.1 o1 in
      (q2, rw (e1, e2), o2, λ j. ground (arith, v1 j, v2 j, compare_bytes_eq j k))

  -- `Write` does not panic; after it the parent shows what the store showed, for every key, and the
  -- store shows the same as before.
  pub write_lem :
      (s : Store b p d)
      → IsOk b p d s
      → (s' : Store b p d) × (write b p d s ≡ ok s')
        × IsOk b p d s'
        × ((j : Bytes) → p.view s'.parent j ≡ view b p d s j)
        × ((j : Bytes) → view b p d s' j ≡ view b p d s j)
  unfolding write
  write_lem s o =
      let (q, e, oq, v) = write_all_lem s.cache s.parent o.map o.good o.parent_ok in
      (
        record s { parent = q },
        rw e,
        record {
          parent_ok = oq;
          map = o.map;
          good = o.good;
          unsorted_map = o.unsorted_map;
          pending = o.pending;
          synced = o.synced;
        },
        v,
        λ j. ground (arith, v j),
      )
