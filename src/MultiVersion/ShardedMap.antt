-- ===== src/MultiVersion/ShardedMap.antt =====
-- multiversion/list_store.go, `ShardedMap`: a map that is split by a checksum of the key. The checksum,
-- `crc32.ChecksumIEEE`, is a parameter. The locks of the shards make each operation one step. The map is
-- made with 128 shards, so the index of a shard always exists.
pub mod Laws
use melodiasdk_io_store.Prelude.{
  ℕ, ◌%◌, Bool, true, false, List, [], ◌∷◌, Option, none, some, if◌then◌else◌, length, get_elem?,
  set, replicate, is_some,
}
use melodiasdk_io_store.Bytes.{Bytes}
use melodiasdk_io_store.SyncMap.{SyncMap, load, store, remove}

pub record ShardedMap (V : Type 0) : Type 0 where
  pub shards : List (SyncMap V)
  pub shard_count : ℕ

abbrev pub shard_at : {V : Type 0} → List (SyncMap V) → ℕ → SyncMap V
shard_at l i = elim (get_elem? l i) [ some m ↦ m | none ↦ [] ]

module _ (checksum : Bytes → ℕ) {V : Type 0} where
  unfoldable pub new_sharded_map : ℕ → ShardedMap V
  new_sharded_map n = record { shards = replicate n []; shard_count = n }

  unfoldable pub get_shard : ShardedMap V → Bytes → ℕ
  get_shard sm key = checksum key % sm.shard_count

  -- A shard is replaced.
  abbrev pub put_shard : ShardedMap V → ℕ → SyncMap V → ShardedMap V
  put_shard sm i m = record sm { shards = set sm.shards i m }

  unfoldable pub set_key : ShardedMap V → Bytes → V → ShardedMap V
  unfolding get_shard
  set_key sm key value =
      let i = get_shard sm key in put_shard sm i (store key value (shard_at sm.shards i))

  unfoldable pub get : ShardedMap V → Bytes → Option V
  unfolding get_shard
  get sm key = load key (shard_at sm.shards (get_shard sm key))

  -- `SetIf`, with the value that it returns.
  unfoldable pub set_if : ShardedMap V → Bytes → V → (Option V → Bool) → Option V × ShardedMap V
  unfolding get set_key
  set_if sm key value if_fun =
      if if_fun (get sm key) then (some value, set_key sm key value) else (get sm key, sm)

  -- `Delete`, with whether the key existed.
  unfoldable pub delete : ShardedMap V → Bytes → Bool × ShardedMap V
  unfolding get_shard get
  delete sm key =
      let i = get_shard sm key in
      if is_some (get sm key)
      then (true, put_shard sm i (remove key (shard_at sm.shards i)))
      else (false, sm)
