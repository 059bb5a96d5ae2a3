-- ===== src/SyncMap.antt =====
-- Go's `sync.Map` (and `map`) with string keys: an association list with distinct keys. `Range` visits
-- the list in its order; theorems hold for every list, so for every order of the visits.
use melodiasdk_io_store.Prelude.{◌≡◌, refl, List, [], ◌∷◌, arith, Option, none, some, if◌then◌else◌}
use melodiasdk_io_store.Bytes.{Bytes, bytes_eq}
use melodiasdk_io_store.Bytes.Order.{compare_bytes_eq, compare_bytes_refl}

abbrev pub SyncMap : Type 0 → Type 0
SyncMap V = List (Bytes × V)

module _ {V : Type 0} where
  unfoldable pub load : Bytes → SyncMap V → Option V
  load k [] = none
  load k ((j, v) ∷ m) = if bytes_eq k j then some v else load k m

  unfoldable pub remove : Bytes → SyncMap V → SyncMap V
  remove k [] = []
  remove k ((j, v) ∷ m) = let rest = remove k m in if bytes_eq k j then rest else (j, v) ∷ rest

  unfoldable pub store : Bytes → V → SyncMap V → SyncMap V
  store k v [] = (k, v) ∷ []
  store k v ((j, w) ∷ m) = if bytes_eq k j then (k, v) ∷ m else (j, w) ∷ store k v m

  -- Every key stands once.
  abbrev pub IsMap : SyncMap V → Type 0
  IsMap [] = Unit
  IsMap ((k, v) ∷ m) = (load k m ≡ none) × IsMap m

  pub load-store :
      (k j : Bytes) (v : V) (m : SyncMap V)
      → load j (store k v m) ≡ (if bytes_eq j k then some v else load j m)
  unfolding load store
  load-store k j v [] = refl
  load-store k j v ((i, w) ∷ m) = ground (
    arith,
    load-store k j v m,
    compare_bytes_eq k i,
    compare_bytes_eq j i,
    compare_bytes_eq j k,
    compare_bytes_refl i,
    compare_bytes_refl j,
  )

  pub load-remove :
      (k j : Bytes) (m : SyncMap V)
      → load j (remove k m) ≡ (if bytes_eq j k then none else load j m)
  unfolding load remove
  load-remove k j [] = ground arith
  load-remove k j ((i, w) ∷ m) = ground (
    arith,
    load-remove k j m,
    compare_bytes_eq k i,
    compare_bytes_eq j i,
    compare_bytes_eq j k,
    compare_bytes_refl i,
    compare_bytes_refl j,
  )

  pub store-IsMap : (k : Bytes) (v : V) (m : SyncMap V) → IsMap m → IsMap (store k v m)
  unfolding load store
  store-IsMap k v [] h = (refl, tt)
  store-IsMap k v ((j, w) ∷ m) h = ground (
    arith,
    store-IsMap k v m h.1,
    load-store k j v m,
    compare_bytes_eq k j,
    compare_bytes_eq j k,
    compare_bytes_refl j,
  )

  pub remove-IsMap : (k : Bytes) (m : SyncMap V) → IsMap m → IsMap (remove k m)
  unfolding load remove
  remove-IsMap k [] h = tt
  remove-IsMap k ((j, w) ∷ m) h = ground (arith, remove-IsMap k m h.1, load-remove k j m)
