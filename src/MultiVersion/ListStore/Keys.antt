-- ===== src/MultiVersion/ListStore/Keys.antt =====
-- The sorted keys that multiversion/list_store.go and multiversion/store.go keep: `sort.Strings` neither
-- loses nor adds a key.
use melodiasdk_io_store.Prelude.{
  ◌≡◌, refl, ◌∙◌, Bool, true, false, if◌then◌else◌, ap, ◌||◌, List, [], ◌∷◌, is_some, arith,
  Bool-cases, inl, inr,
}
use melodiasdk_io_store.Bytes.{Bytes, bytes_eq, compare_bytes, is_lt}
use melodiasdk_io_store.SyncMap.{SyncMap, load}
use melodiasdk_io_store.MultiVersion.ListStore.{insert_key, sort_keys, keys_of}
use melodiasdk_io_store.MultiVersion.ListStore.Writesets.{has_key}

-- A predicate of every key.
abbrev pub Every : (Bytes → Type 0) → List Bytes → Type 0
Every P [] = Unit
Every P (k ∷ ks) = P k × Every P ks

Every-insert_key :
    (P : Bytes → Type 0) (k : Bytes) (ks : List Bytes)
    → P k
    → Every P ks
    → Every P (insert_key k ks)
unfolding insert_key
Every-insert_key P k [] h r = (h, tt)
Every-insert_key P k (j ∷ ks) h r = elim (Bool-cases (is_lt (compare_bytes j k))) [
  | inl t ↦ rw t (r.0, Every-insert_key P k ks h r.1)
  | inr t ↦ rw t (h, r)
]

pub Every-sort_keys : (P : Bytes → Type 0) (ks : List Bytes) → Every P ks → Every P (sort_keys ks)
unfolding sort_keys
Every-sort_keys P [] r = tt
Every-sort_keys P (k ∷ ks) r = Every-insert_key P k (sort_keys ks) r.0 (Every-sort_keys P ks r.1)

Every-of_insert_key :
    (P : Bytes → Type 0) (k : Bytes) (ks : List Bytes)
    → Every P (insert_key k ks)
    → P k × Every P ks
unfolding insert_key
Every-of_insert_key P k [] r = (r.0, tt)
Every-of_insert_key P k (j ∷ ks) r =
    by_order (is_lt (compare_bytes j k)) r (λ q. Every-of_insert_key P k ks q)
  where
    by_order :
        (b : Bool)
        → Every P (if b then j ∷ insert_key k ks else k ∷ j ∷ ks)
        → (Every P (insert_key k ks) → P k × Every P ks)
        → P k × (P j × Every P ks)
    by_order true q more = let (h, t) = more q.1 in (h, (q.0, t))
    by_order false q more = q

pub Every-of_sort_keys :
    (P : Bytes → Type 0) (ks : List Bytes) → Every P (sort_keys ks) → Every P ks
unfolding sort_keys
Every-of_sort_keys P [] r = tt
Every-of_sort_keys P (k ∷ ks) r =
    let (h, t) = Every-of_insert_key P k (sort_keys ks) r in (h, Every-of_sort_keys P ks t)

has_key-insert_key :
    (k j : Bytes) (ks : List Bytes) → has_key j (insert_key k ks) ≡ (bytes_eq j k || has_key j ks)
unfolding insert_key
has_key-insert_key k j [] = refl
has_key-insert_key k j (i ∷ ks) = elim (Bool-cases (is_lt (compare_bytes i k))) [
  | inl t ↦ rw (t, has_key-insert_key k j ks) (ground arith)
  | inr t ↦ rw t
]

pub has_key-sort_keys : (j : Bytes) (ks : List Bytes) → has_key j (sort_keys ks) ≡ has_key j ks
unfolding sort_keys
has_key-sort_keys j [] = refl
has_key-sort_keys j (k ∷ ks) =
    has_key-insert_key k j (sort_keys ks) ∙ ap (λ b. bytes_eq j k || b) (has_key-sort_keys j ks)

pub is_some-load :
    {V : Type 0} (k : Bytes) (m : SyncMap V) → is_some (load k m) ≡ has_key k (keys_of m)
unfolding load
is_some-load k [] = refl
is_some-load k ((j, v) ∷ m) = ground (arith, is_some-load k m)
