-- ===== src/InterBlock.antt =====
-- cache/cache.go and cache/big_cache.go: the cache that stays between blocks, and its manager. The ARC cache of
-- github.com/hashicorp/golang-lru is a parameter. The manager's map holds the stores by name.
pub mod Coherence
pub mod Caches
use melodiasdk_io_store.Prelude.{
  ℕ, ◌≡◌, ◌⊎◌, Bool, true, false, List, [], ◌∷◌, Option, none, some, Result, ok, panic, ◌>>=◌, ◌>>◌,
  if◌then◌else◌, ◌||◌, should_not_happen, type_assertion,
}
use melodiasdk_io_store.Bytes.{Bytes, Slice, bytes_eq}
use melodiasdk_io_store.Method.{Method, continue}
use melodiasdk_io_store.SyncMap.{SyncMap, load, store}
use melodiasdk_io_store.Types.Validity.{assert_valid_key, assert_valid_value}
use melodiasdk_io_store.Types.KvStore.{KvStore}

-- `lru.ARCCache`: `held` is what it has. It may drop anything, but has nothing that was not added last.
pub record ArcCache : Type 1 where
  pub State : Type 0
  pub held : State → Bytes → Option Slice
  -- NewARC; it fails for some sizes.
  pub new_arc : ℕ → Option State
  pub get_arc : State → Bytes → Option Slice × State
  pub add : State → Bytes → Slice → State
  pub remove : State → Bytes → State
  pub new_arc_lem : (n : ℕ) (c : State) (j : Bytes) → new_arc n ≡ some c → held c j ≡ none
  pub get_arc_lem : (c : State) (k : Bytes) → (get_arc c k).0 ≡ held c k
  pub get_arc-held : (c : State) (k j : Bytes) → held (get_arc c k).1 j ≡ held c j
  pub add_lem :
      (c : State) (k j : Bytes) (v : Slice)
      → (held (add c k v) j ≡ none)
        ⊎ (held (add c k v) j ≡ (if bytes_eq j k then some v else held c j))
  pub remove_lem :
      (c : State) (k j : Bytes) → held (remove c k) j ≡ (if bytes_eq j k then none else held c j)

-- The three keys, in hexadecimal 0214dc6f17bbec824fff8f86587966b2047db6ab73677374616b65,
-- 0214f1829676db577682e944fc3493d451b67ff3e29f7374616b65 and
-- 0214603871c2ddd41c26ee77495e2e31e6de7f9957e0657468, for which CommitKVStoreBigCache.Get returns nil.
abbrev pub first_key : Bytes
first_key =
    0x02 ∷ 0x14 ∷ 0xdc ∷ 0x6f ∷ 0x17 ∷ 0xbb ∷ 0xec ∷ 0x82 ∷ 0x4f ∷ 0xff ∷ 0x8f ∷ 0x86 ∷ 0x58 ∷ 0x79
    ∷ 0x66 ∷ 0xb2 ∷ 0x04 ∷ 0x7d ∷ 0xb6 ∷ 0xab ∷ 0x73 ∷ 0x67 ∷ 0x73 ∷ 0x74 ∷ 0x61 ∷ 0x6b ∷ 0x65 ∷ []

abbrev pub second_key : Bytes
second_key =
    0x02 ∷ 0x14 ∷ 0xf1 ∷ 0x82 ∷ 0x96 ∷ 0x76 ∷ 0xdb ∷ 0x57 ∷ 0x76 ∷ 0x82 ∷ 0xe9 ∷ 0x44 ∷ 0xfc ∷ 0x34
    ∷ 0x93 ∷ 0xd4 ∷ 0x51 ∷ 0xb6 ∷ 0x7f ∷ 0xf3 ∷ 0xe2 ∷ 0x9f ∷ 0x73 ∷ 0x74 ∷ 0x61 ∷ 0x6b ∷ 0x65 ∷ []

abbrev pub third_key : Bytes
third_key =
    0x02 ∷ 0x14 ∷ 0x60 ∷ 0x38 ∷ 0x71 ∷ 0xc2 ∷ 0xdd ∷ 0xd4 ∷ 0x1c ∷ 0x26 ∷ 0xee ∷ 0x77 ∷ 0x49 ∷ 0x5e
    ∷ 0x2e ∷ 0x31 ∷ 0xe6 ∷ 0xde ∷ 0x7f ∷ 0x99 ∷ 0x57 ∷ 0xe0 ∷ 0x65 ∷ 0x74 ∷ 0x68 ∷ []

abbrev pub is_special : Bytes → Bool
is_special key = bytes_eq key first_key || bytes_eq key second_key || bytes_eq key third_key

module _ (p : KvStore) (a : ArcCache) where
  -- CommitKVStoreCache: the store that it wraps and its cache.
  pub record StoreCache : Type 0 where
    pub parent : p.State
    pub cache : a.State

  unfoldable pub new_store_cache : p.State → ℕ → Result StoreCache
  new_store_cache parent size = elim (a.new_arc size) [
    | none ↦ panic should_not_happen
    | some c ↦ ok (record { parent = parent; cache = c })
  ]

  -- The parent's value, which is then cached.
  abbrev pub cache_value : Bytes → Result Slice → Method StoreCache Slice
  cache_value key (ok value) s = (ok value, record s { cache = a.add s.cache key value })
  cache_value key (panic e) s = (panic e, s)

  unfoldable pub get_and_write_to_cache : Bytes → Method StoreCache Slice
  get_and_write_to_cache key s = cache_value key (p.get s.parent key) s

  -- A hit, or the parent's value.
  abbrev pub after_lookup : Bytes → Option Slice × a.State → Method StoreCache Slice
  after_lookup key (some value, c) s = (ok value, record s { cache = c })
  after_lookup key (none, c) s = cache_value key (p.get s.parent key) (record s { cache = c })

  unfoldable pub get : Bytes → Method StoreCache Slice
  get key s = continue (assert_valid_key key) s (λ _ t. after_lookup key (a.get_arc t.cache key) t)

  -- A call of the parent that writes; `left` is what the parent is after a panic.
  abbrev pub write_parent : p.State → Result p.State → Method StoreCache (Unit {0})
  write_parent left (ok parent) s = (ok tt, record s { parent = parent })
  write_parent left (panic e) s = (panic e, record s { parent = left })

  -- The cache is written first, and stays written where the parent panics.
  unfoldable pub set : Bytes → Slice → Method StoreCache (Unit {0})
  set key value s = continue (assert_valid_key key) s (λ _ t.
      continue (assert_valid_value value) t (λ _ u.
        write_parent (p.failed_set u.parent key value) (p.set u.parent key value)
          (record u { cache = a.add u.cache key value })))

  unfoldable pub delete : Bytes → Method StoreCache (Unit {0})
  delete key s =
      write_parent (p.failed_delete s.parent key) (p.delete s.parent key)
        (record s { cache = a.remove s.cache key })

  -- The cache of 1000, or none at all if NewARC fails.
  unfoldable pub clear_cache : StoreCache → Option StoreCache
  clear_cache s = elim (a.new_arc 1000) [ none ↦ none | some c ↦ some (record s { cache = c }) ]

  -- CommitKVStoreBigCache, whose own cache is not used.
  pub record StoreBigCache : Type 0 where
    pub parent : p.State

  unfoldable pub big_get : StoreBigCache → Bytes → Result Slice
  big_get s key = do assert_valid_key key; if is_special key then ok none else p.get s.parent key

  abbrev pub write_big_parent : p.State → Result p.State → Method StoreBigCache (Unit {0})
  write_big_parent left (ok parent) s = (ok tt, record s { parent = parent })
  write_big_parent left (panic e) s = (panic e, record s { parent = left })

  unfoldable pub big_set : Bytes → Slice → Method StoreBigCache (Unit {0})
  big_set key value s = continue (assert_valid_key key) s (λ _ t.
      continue (assert_valid_value value) t
        (λ _ u. write_big_parent (p.failed_set u.parent key value) (p.set u.parent key value) u))

  unfoldable pub big_delete : Bytes → Method StoreBigCache (Unit {0})
  big_delete key s = write_big_parent (p.failed_delete s.parent key) (p.delete s.parent key) s

  pub data CommitStore : Type 0 where
    plain : StoreCache → CommitStore
    big : StoreBigCache → CommitStore

  -- CommitKVStoreCacheManager. The Boolean `env` of its methods is whether the environment's `cache` is set.
  pub record CacheManager : Type 0 where
    pub cache_size : ℕ
    pub caches : SyncMap CommitStore

  unfoldable pub new_cache_manager : ℕ → CacheManager
  new_cache_manager size = record { cache_size = size; caches = [] }

  unfoldable pub new_commit_store : Bool → p.State → ℕ → Result CommitStore
  new_commit_store true parent size = ok (big (record { parent = parent }))
  new_commit_store false parent size = do s ← new_store_cache parent size; ok (plain s)

  unfoldable pub get_store_cache :
      Bool → Bytes → p.State → CacheManager → Result (CommitStore × CacheManager)
  get_store_cache env name parent m = elim (load name m.caches) [
    | some s ↦ ok (s, m)
    | none ↦ do
      s ← new_commit_store env parent m.cache_size
      ok (s, record m { caches = store name s m.caches })
  ]

  -- The type assertion panics where the environment has changed.
  abbrev pub unwrap_store : Bool → CommitStore → Result (Option p.State)
  unwrap_store true (big s) = ok (some s.parent)
  unwrap_store true (plain s) = panic type_assertion
  unwrap_store false (plain s) = ok (some s.parent)
  unwrap_store false (big s) = panic type_assertion

  unfoldable pub unwrap : Bool → Bytes → CacheManager → Result (Option p.State)
  unwrap env name m = elim (load name m.caches) [ none ↦ ok none | some s ↦ unwrap_store env s ]

  unfoldable pub reset : CacheManager → CacheManager
  reset m = record m { caches = [] }
