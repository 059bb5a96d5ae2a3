-- ===== src/CacheKv/Store/Nested.antt =====
-- A cachekv store is itself a `KvStore` (`CacheWrap` of cachekv/store.go nests one in another).
use melodiasdk_io_store.Prelude.{◌≡◌, ◌∙◌, Bool, Result, ok, ◌>>=◌}
use melodiasdk_io_store.Bytes.{Bytes, Slice}
use melodiasdk_io_store.Iterator.{Iter}
use melodiasdk_io_store.Types.KvStore.{KvStore, KeyDomain, IsRange, Iterates}
use melodiasdk_io_store.CacheKv.BTree.{BTreeG}
use melodiasdk_io_store.CacheKv.Merge.{collect_all}
use melodiasdk_io_store.CacheKv.Store.{Store, get, set, delete, iterator, write}
use melodiasdk_io_store.CacheKv.Store.View.{IsOk, view, get-view, set_lem, delete_lem}
use melodiasdk_io_store.CacheKv.Store.Flush.{write_lem}
use melodiasdk_io_store.CacheKv.Store.Iterate.{iterator_lem}

module _ (b : BTreeG) (p : KvStore) (d : KeyDomain) where
  -- The iterator together with its whole iteration.
  unfoldable pub iterate : Store b p d → Slice → Slice → Bool → Result (Iter × Store b p d)
  iterate s start end ascending = do
    (it, s') ← iterator b p d s start end ascending
    items ← collect_all it
    ok (items, s')

  pub iterate_lem :
      (s : Store b p d) (start end : Slice) (asc : Bool)
      → IsOk b p d s
      → IsRange start end
      → (items : Iter) × (s' : Store b p d) × (iterate s start end asc ≡ ok (items, s'))
        × IsOk b p d s'
        × ((j : Bytes) → view b p d s' j ≡ view b p d s j)
        × Iterates asc (view b p d s) start end items
  unfolding iterate
  iterate_lem s start end asc o h =
      let (it, s', r, e1, e2, o', v, i) = iterator_lem b p d s start end asc o h in
      (r, s', rw (e1, e2), o', v, i)

  abbrev pub cache_store : KvStore
  cache_store = record {
    State = Store b p d;
    IsOk = IsOk b p d;
    view = view b p d;
    get = get b p d;
    set = set b p d;
    delete = delete b p d;
    iterator = iterate;
    failed_set = λ s k v. s;
    failed_delete = λ s k. s;
    failed_iterator = λ s start end asc. s;
    get_lem = λ s k o h. (get-view b p d s k o h).0;
    set_lem = set_lem b p d;
    delete_lem = delete_lem b p d;
    iterator_lem = iterate_lem;
  }

-- A cache over a cache: after `Write` of the inner store and then of the outer one, the root shows what
-- the inner store showed, for every key, and neither call panics.
pub nested_write :
    (b : BTreeG) (p : KvStore) (d : KeyDomain) (s : Store b (cache_store b p d) d)
    → IsOk b (cache_store b p d) d s
    → (s' : Store b (cache_store b p d) d) × (t : Store b p d) × (write b (cache_store b p d) d s
        ≡ ok s')
      × (write b p d s'.parent ≡ ok t)
      × ((j : Bytes) → p.view t.parent j ≡ view b (cache_store b p d) d s j)
nested_write b p d s o =
    let (s', e, o', v, same) = write_lem b (cache_store b p d) d s o in
    let (t, e', ot, v', same') = write_lem b p d s'.parent o'.parent_ok in
    (s', t, e, e', λ j. v' j ∙ v j)
