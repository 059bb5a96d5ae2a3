-- ===== src/Tests/CacheKv.antt =====
-- The store of cachekv/store.go over concrete parameters.
use melodiasdk_io_store.Prelude.{
  ◌≡◌, refl, true, false, [], ◌∷◌, none, some, ok, arith, if◌then◌else◌, suc, length,
}
use melodiasdk_io_store.Bytes.{Bytes, bytes_eq, compare_bytes}
use melodiasdk_io_store.Bytes.Order.{direction, compare_dir}
use melodiasdk_io_store.Sorted.{find, IsSorted}
use melodiasdk_io_store.Iterator.{Iter}
use melodiasdk_io_store.Types.KvStore.{KvStore, IsRange, Iterates, is_inverted, in_domain}
use melodiasdk_io_store.CacheKv.MemIterator.{entries, new_mem_iterator}
use melodiasdk_io_store.CacheKv.MemIterator.Range
use melodiasdk_io_store.CacheKv.Merge.{
  CacheMergeIterator, new_cache_merge_iterator, collect_all, collect, key, value, next,
  skip_until_exists_or_invalid, skip_until, skip_cache_deletes,
}
use melodiasdk_io_store.CacheKv.Merge.Collect
use melodiasdk_io_store.CacheKv.Merge.Collect.{IsMerged}
use melodiasdk_io_store.CacheKv.Store.{Store, new_store, set_cache_value, set, iterator, write}
use melodiasdk_io_store.CacheKv.Store.View
use melodiasdk_io_store.CacheKv.Store.View.{IsOk, view, new_store-IsOk, set_cache_value-IsOk}
use melodiasdk_io_store.CacheKv.Store.Flush
use melodiasdk_io_store.CacheKv.Store.Iterate
use melodiasdk_io_store.CacheKv.Store.Nested
use melodiasdk_io_store.CacheKv.Store.Nested.{cache_store}
use melodiasdk_io_store.Tests.Model.{list_tree, list_store, key_domain, Live, insert_live}

abbrev apple : Bytes
apple = 97 ∷ []

abbrev pear : Bytes
pear = 112 ∷ []

-- The parent has a value for the first key.
abbrev parent : Live
parent = insert_live apple (1 ∷ []) ([], tt, tt)

abbrev fresh : Store list_tree list_store key_domain
fresh = new_store list_tree list_store key_domain parent

-- A deletion of the parent's key, and a new key.
abbrev deleted : Store list_tree list_store key_domain
deleted = set_cache_value list_tree list_store key_domain fresh apple none true

abbrev changed : Store list_tree list_store key_domain
changed = set_cache_value list_tree list_store key_domain deleted pear (some (7 ∷ [])) true

changed-IsOk : IsOk list_tree list_store key_domain changed
changed-IsOk =
    set_cache_value-IsOk list_tree list_store key_domain deleted pear (some (7 ∷ []))
      (set_cache_value-IsOk list_tree list_store key_domain fresh apple none
        (new_store-IsOk list_tree list_store key_domain parent tt) (omega arith) tt)
      (omega arith) (omega arith)

all_keys : IsRange none none
unfolding is_inverted
all_keys = record { start_lem = refl; end_lem = refl; ordered = refl }

iterator_lem_example :
    (it : CacheMergeIterator) × (s' : Store list_tree list_store key_domain) × (r : Iter)
    × (iterator list_tree list_store key_domain changed none none false ≡ ok (it, s'))
    × (collect_all it ≡ ok r)
    × IsOk list_tree list_store key_domain s'
    × ((j : Bytes)
        → view list_tree list_store key_domain s' j
          ≡ view list_tree list_store key_domain changed j)
    × Iterates false (view list_tree list_store key_domain changed) none none r
iterator_lem_example =
    Iterate.iterator_lem list_tree list_store key_domain changed none none false changed-IsOk
      all_keys

write_lem_example :
    (s' : Store list_tree list_store key_domain) × (write list_tree list_store key_domain changed
      ≡ ok s')
    × IsOk list_tree list_store key_domain s'
    × ((j : Bytes) → list_store.view s'.parent j ≡ view list_tree list_store key_domain changed j)
    × ((j : Bytes)
        → view list_tree list_store key_domain s' j
          ≡ view list_tree list_store key_domain changed j)
write_lem_example = Flush.write_lem list_tree list_store key_domain changed changed-IsOk

set_lem_example :
    (s' : Store list_tree list_store key_domain) × (set list_tree list_store key_domain changed
        apple
        (some (9 ∷ []))
      ≡ ok s')
    × IsOk list_tree list_store key_domain s'
    × ((j : Bytes)
        → view list_tree list_store key_domain s' j ≡ (
            if bytes_eq j apple
            then some (9 ∷ [])
            else view list_tree list_store key_domain changed j))
set_lem_example =
    View.set_lem list_tree list_store key_domain changed apple (9 ∷ []) changed-IsOk (omega arith)
      (omega arith)

abbrev parent_items : Iter
parent_items = (apple, some (1 ∷ [])) ∷ (pear, some (2 ∷ [])) ∷ []

abbrev cache_items : Iter
cache_items = (apple, none) ∷ (pear, some (7 ∷ [])) ∷ []

parent_items-IsSorted : IsSorted (direction true) parent_items
unfolding compare_dir compare_bytes
parent_items-IsSorted = ((refl, tt), (tt, tt))

cache_items-IsSorted : IsSorted (direction true) cache_items
unfolding compare_dir compare_bytes
cache_items-IsSorted = ((refl, tt), (tt, tt))

merge_iteration_example :
    (it : CacheMergeIterator) × (r : Iter) × (new_cache_merge_iterator parent_items cache_items true
      ≡ ok it)
    × (collect_all it ≡ ok r)
    × IsMerged true parent_items cache_items r
merge_iteration_example =
    Collect.merge_iteration true parent_items cache_items parent_items-IsSorted cache_items-IsSorted
      (refl, (refl, tt))

mem_iteration_example :
    (items : Iter) × (entries list_tree
        (suc (length cache_items))
        (new_mem_iterator list_tree (some pear) none (cache_items, cache_items-IsSorted) true)
      ≡ ok items)
    × IsSorted (direction true) items
    × ((k : Bytes)
        → find (direction true) k items
          ≡ (if in_domain k (some pear) none then find (direction true) k cache_items else none))
mem_iteration_example =
    Range.mem_iteration list_tree (some pear) none (cache_items, cache_items-IsSorted) true

abbrev upper : KvStore
upper = cache_store list_tree list_store key_domain

abbrev inner : Store list_tree upper key_domain
inner =
    set_cache_value list_tree upper key_domain (new_store list_tree upper key_domain changed) pear
      none true

inner-IsOk : IsOk list_tree upper key_domain inner
inner-IsOk =
    set_cache_value-IsOk list_tree upper key_domain (new_store list_tree upper key_domain changed)
      pear none (new_store-IsOk list_tree upper key_domain changed changed-IsOk) (omega arith) tt

nested_write_example :
    (s' : Store list_tree upper key_domain) × (t : Store list_tree list_store key_domain) × (write
        list_tree upper key_domain inner
      ≡ ok s')
    × (write list_tree list_store key_domain s'.parent ≡ ok t)
    × ((j : Bytes) → list_store.view t.parent j ≡ view list_tree upper key_domain inner j)
nested_write_example = Nested.nested_write list_tree list_store key_domain inner inner-IsOk

-- The merged iteration run: the parent's deleted key is hidden, the new value shadows the old one.
merge_run :
    (collect 5 (record {
      parent = parent_items;
      cache = (pear, some (7 ∷ [])) ∷ [];
      ascending = true;
      valid = true;
    })
      ≡ ok ((apple, some (1 ∷ [])) ∷ (pear, some (7 ∷ [])) ∷ []))
unfolding collect key value next skip_until_exists_or_invalid skip_until skip_cache_deletes
    compare_dir compare_bytes
merge_run = refl
