-- ===== src/MultiVersion/ShardedMap/Laws.antt =====
-- `ShardedMap` of multiversion/list_store.go holds each key once, whatever the checksum.
use melodiasdk_io_store.Prelude.{
  ℕ, ◌<◌, ◌≡◌, ◌≢◌, refl, ap, ◌∙◌, Bool, true, false, Option, none, some, if◌then◌else◌, length,
  is_some, arith, length-set, get_elem?-set_self, get_elem?-set_ne, Bool-cases, inl, inr, ◌==◌,
}
use melodiasdk_io_store.Bytes.{Bytes, bytes_eq}
use melodiasdk_io_store.Bytes.Order.{compare_bytes_eq}
use melodiasdk_io_store.SyncMap.{SyncMap, load, store, remove, load-store, load-remove}
use melodiasdk_io_store.MultiVersion.ShardedMap.{
  ShardedMap, shard_at, get_shard, put_shard, set_key, get, delete,
}

-- There is a shard for each index below the count.
pub record IsSharded {V : Type 0} (sm : ShardedMap V) : Type 0 where
  pub counted : length sm.shards ≡ sm.shard_count
  pub positive : 0 < sm.shard_count

module _ (checksum : Bytes → ℕ) {V : Type 0} where
  put_shard-IsSharded :
      (sm : ShardedMap V) (i : ℕ) (m : SyncMap V)
      → IsSharded sm
      → IsSharded (put_shard checksum sm i m)
  put_shard-IsSharded sm i m h = record {
    counted = length-set sm.shards i m ∙ h.counted;
    positive = h.positive;
  }

  get_shard-lt :
      (sm : ShardedMap V) (k : Bytes) → IsSharded sm → get_shard checksum sm k < length sm.shards
  unfolding get_shard
  get_shard-lt sm k h = grind (arith, h.counted, h.positive)

  shard_at-put :
      (sm : ShardedMap V) (i j : ℕ) (m : SyncMap V)
      → i < length sm.shards
      → shard_at (put_shard checksum sm i m).shards j ≡ (if j == i then m else shard_at sm.shards j)
  shard_at-put sm i j m h = elim (Bool-cases (j == i)) [
    | inl e ↦
        let same : j ≡ i = ground arith in
        rw (e, same, shard_at, get_elem?-set_self sm.shards i m h)
    | inr e ↦
        let ne : i ≢ j = λ q. ground arith in rw (e, shard_at, get_elem?-set_ne sm.shards i j m ne)
  ]

  -- A key of the shard that was replaced, and a key of another one.
  get-put_shard :
      (sm : ShardedMap V) (k j : Bytes) (m : SyncMap V)
      → IsSharded sm
      → get checksum (put_shard checksum sm (get_shard checksum sm k) m) j ≡ (
          if get_shard checksum sm j == get_shard checksum sm k
          then load j m
          else get checksum sm j)
  unfolding get get_shard
  get-put_shard sm k j m h =
      ap (load j) (
        shard_at-put sm (get_shard checksum sm k) (get_shard checksum sm j) m (get_shard-lt sm k h))
      ∙ load-if (get_shard checksum sm j == get_shard checksum sm k) j m
          (shard_at sm.shards (get_shard checksum sm j))
    where
      load-if :
          (b : Bool) (j : Bytes) (x y : SyncMap V)
          → load j (if b then x else y) ≡ (if b then load j x else load j y)
      load-if true j x y = refl
      load-if false j x y = refl

  other_shard :
      (sm : ShardedMap V) (k j : Bytes)
      → (get_shard checksum sm j == get_shard checksum sm k) ≡ false
      → bytes_eq j k ≡ false
  other_shard sm k j h = elim (Bool-cases (bytes_eq j k)) [
    | inl e ↦
        let same : j ≡ k = compare_bytes_eq j k (ground arith) in
        absurd (ground (arith, ap (get_shard checksum sm) same))
    | inr e ↦ e
  ]

  -- What a key's shard is replaced by decides the key, if it decides the shard's other keys as before.
  get-replaced :
      (sm : ShardedMap V) (k j : Bytes) (m : SyncMap V) (o : Option V)
      → IsSharded sm
      → ((i : Bytes)
          → load i m
            ≡ (if bytes_eq i k then o else load i (shard_at sm.shards (get_shard checksum sm k))))
      → get checksum (put_shard checksum sm (get_shard checksum sm k) m) j
        ≡ (if bytes_eq j k then o else get checksum sm j)
  get-replaced sm k j m o h w =
      get-put_shard sm k j m h
      ∙ elim (Bool-cases (get_shard checksum sm j == get_shard checksum sm k)) [
        | inl e ↦
            let same : get_shard checksum sm j ≡ get_shard checksum sm k = ground arith in
            unfold get in rw e (w j ∙ rw same)
        | inr e ↦ rw (e, other_shard sm k j e)
      ]

  -- Writing a key changes that key alone, also among the keys of its shard.
  pub get-set_key :
      (sm : ShardedMap V) (k j : Bytes) (v : V)
      → IsSharded sm
      → get checksum (set_key checksum sm k v) j
        ≡ (if bytes_eq j k then some v else get checksum sm j)
  unfolding set_key
  get-set_key sm k j v h =
      get-replaced sm k j (store k v (shard_at sm.shards (get_shard checksum sm k))) (some v) h
        (λ i. load-store k i v (shard_at sm.shards (get_shard checksum sm k)))

  pub set_key-IsSharded :
      (sm : ShardedMap V) (k : Bytes) (v : V) → IsSharded sm → IsSharded (set_key checksum sm k v)
  unfolding set_key
  set_key-IsSharded sm k v h =
      put_shard-IsSharded sm (get_shard checksum sm k)
        (store k v (shard_at sm.shards (get_shard checksum sm k))) h

  -- `Delete` says whether the key existed, and hides that key alone.
  pub get-delete :
      (sm : ShardedMap V) (k j : Bytes)
      → IsSharded sm
      → ((delete checksum sm k).0 ≡ is_some (get checksum sm k))
        × IsSharded (delete checksum sm k).1
        × (get checksum (delete checksum sm k).1 j
            ≡ (if bytes_eq j k then none else get checksum sm j))
  unfolding delete
  get-delete sm k j h = elim (Bool-cases (is_some (get checksum sm k))) [
    | inl e ↦ rw e (
      refl,
      put_shard-IsSharded sm (get_shard checksum sm k)
          (remove k (shard_at sm.shards (get_shard checksum sm k))) h,
      get-replaced sm k j (remove k (shard_at sm.shards (get_shard checksum sm k))) none h
          (λ i. load-remove k i (shard_at sm.shards (get_shard checksum sm k))),
    )
    | inr e ↦ rw e (refl, h, ground (arith, compare_bytes_eq j k))
  ]
