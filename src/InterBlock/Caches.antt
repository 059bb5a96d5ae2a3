-- ===== src/InterBlock/Caches.antt =====
-- The stores that the manager of cache/cache.go hands out.
use melodiasdk_io_store.Prelude.{
  ◌≡◌, refl, ap, ◌∙◌, inl, inr, ◌⊎◌, Bool, true, false, none, some, ok, panic, should_not_happen,
  if◌then◌else◌, Option-cases, if-false,
}
use melodiasdk_io_store.Bytes.{Bytes, bytes_eq, is_eq}
use melodiasdk_io_store.Bytes.Order.{compare_bytes_refl}
use melodiasdk_io_store.SyncMap.{load, store, load-store}
use melodiasdk_io_store.Types.KvStore.{KvStore}
use melodiasdk_io_store.InterBlock.{
  ArcCache, CommitStore, plain, big, CacheManager, new_store_cache, new_commit_store,
  get_store_cache, unwrap_store, unwrap, reset,
}

module _ (p : KvStore) (a : ArcCache) where
  -- After GetStoreCache gave a store for a name that had none.
  pub record Handed (env : Bool) (name : Bytes) (parent : p.State) (m : CacheManager p a)
      (s : CommitStore p a) (m' : CacheManager p a) : Type 0 where
    -- The same store is given again, whatever is asked for it and whatever the environment is then.
    pub again : (env' : Bool) (q : p.State) → get_store_cache p a env' name q m' ≡ ok (s, m')
    -- It wraps what it was made for.
    pub wraps : unwrap p a env name m' ≡ ok (some parent)
    -- Other names are as they were.
    pub others : (j : Bytes) → bytes_eq j name ≡ false → load j m'.caches ≡ load j m.caches
    -- After Reset it is gone.
    pub forgotten : (env' : Bool) → unwrap p a env' name (reset p a m') ≡ ok none

  load_self :
      (name : Bytes) (s : CommitStore p a) (m : CacheManager p a)
      → load name (store name s m.caches) ≡ some s
  load_self name s m =
      load-store name name s m.caches
      ∙ ap (λ o. if is_eq o then some s else load name m.caches) (compare_bytes_refl name)

  Handed-new :
      (env : Bool) (name : Bytes) (parent : p.State) (m : CacheManager p a) (s : CommitStore p a)
      → unwrap_store p a env s ≡ ok (some parent)
      → Handed env name parent m s (record m { caches = store name s m.caches })
  unfolding get_store_cache unwrap reset load
  Handed-new env name parent m s u = record {
    again = λ env' q. rw (get_store_cache, load_self name s m);
    wraps = rw (unwrap, load_self name s m) u;
    others =
        λ j ne. load-store name j s m.caches ∙ if-false (bytes_eq j name) _ (load j m.caches) ne;
    forgotten = λ env'. refl;
  }

  -- For a name without a store, GetStoreCache panics because the ARC cache cannot be made, or gives a store over the
  -- one it was asked for: Unwrap in the same environment gives that one back, any later call for the name gives the
  -- same store, other names are unchanged, and after Reset there is none for the name.
  pub get_store_cache-Handed :
      (env : Bool) (name : Bytes) (parent : p.State) (m : CacheManager p a)
      → load name m.caches ≡ none
      → ((env ≡ false)
          × (a.new_arc m.cache_size ≡ none)
          × (get_store_cache p a env name parent m ≡ panic should_not_happen))
        ⊎ ((s : CommitStore p a) × (m' : CacheManager p a) × (get_store_cache p a env name parent m
              ≡ ok (s, m'))
            × Handed env name parent m s m')
  unfolding get_store_cache new_commit_store new_store_cache
  get_store_cache-Handed true name parent m fresh =
      (let s : CommitStore p a = big (record { parent = parent }) in
        inr (
          s,
          record m { caches = store name s m.caches },
          rw (get_store_cache, fresh),
          Handed-new true name parent m s refl,
        ))
  get_store_cache-Handed false name parent m fresh = elim (Option-cases (a.new_arc m.cache_size)) [
    | inl fails ↦
        inl (refl, fails, rw (get_store_cache, fresh, new_commit_store, new_store_cache, fails))
    | inr (c, made) ↦
        (let s : CommitStore p a = plain (record { parent = parent; cache = c }) in
          inr (
            s,
            record m { caches = store name s m.caches },
            rw (get_store_cache, fresh, new_commit_store, new_store_cache, made),
            Handed-new false name parent m s refl,
          ))
  ]
