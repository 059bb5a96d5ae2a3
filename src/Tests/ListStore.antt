-- ===== src/Tests/ListStore.antt =====
-- multiversion/list_store.go with three transactions, four shards and the length as the checksum.
use melodiasdk_io_store.Prelude.{
  ℕ, ◌≡◌, ◌↔◌, refl, Bool, true, ◌&&◌, List, [], ◌∷◌, some, none, ok, arith, length, ltb,
  if◌then◌else◌,
}
use melodiasdk_io_store.Bytes.{Bytes, compare_bytes}
use melodiasdk_io_store.SyncMap.{load}
use melodiasdk_io_store.MultiVersion.ValueItem.{new_value_item, new_estimate_item}
use melodiasdk_io_store.MultiVersion.ShardedMap.{get}
use melodiasdk_io_store.MultiVersion.Tracker.{WriteSet}
use melodiasdk_io_store.MultiVersion.ListStore.{
  VersionMap, VersionStoreIndexKeys, no_keys, ListStore, set_writeset, set_estimated_writeset,
  latest_before, check_readset_at_index, collect_iterator_items, keys_of, sort_keys,
}
use melodiasdk_io_store.MultiVersion.ListStore.Writesets
use melodiasdk_io_store.MultiVersion.ListStore.Writesets.{
  IsReady, Updates, replaced, estimated, kept_keys, has_key, AllHaveSlot,
}
use melodiasdk_io_store.MultiVersion.ListStore.View.{size}
use melodiasdk_io_store.MultiVersion.ListStore.Readsets
use melodiasdk_io_store.MultiVersion.ListStore.Readsets.{
  AllCurrent, IsAscending, member, has_conflict,
}
use melodiasdk_io_store.Tests.Model.{Live, list_store}

abbrev pub checksum : Bytes → ℕ
checksum k = length k

abbrev pub parent : Live
parent = ((1 ∷ [], some (9 ∷ [])) ∷ [], (tt, tt), (refl, tt))

-- Transaction 1 has written the first key.
abbrev pub version_map : VersionMap
version_map = record {
  shards =
      []
      ∷ ((
        1 ∷ [],
        record { value_list = none ∷ some (new_value_item 1 0 (some (5 ∷ []))) ∷ none ∷ [] },
      )
          ∷ (2 ∷ [], record { value_list = none ∷ none ∷ none ∷ [] })
          ∷ [])
      ∷ []
      ∷ []
      ∷ [];
  shard_count = 4;
}

abbrev pub writer : VersionStoreIndexKeys
writer = record {
  tx_writeset_keys = (1 ∷ []) ∷ [];
  readset = (1 ∷ [], some (9 ∷ []) ∷ []) ∷ [];
  iterateset = [];
}

abbrev pub versions : ListStore checksum list_store
versions = record {
  shard_map = version_map;
  keys_list = no_keys ∷ writer ∷ no_keys ∷ [];
  parent_store = parent;
}

-- In its next incarnation the transaction writes the second key only.
abbrev writeset : WriteSet
writeset = (2 ∷ [], some (7 ∷ [])) ∷ []

versions-IsReady : IsReady checksum list_store versions 1 writer writeset
unfolding get load compare_bytes
versions-IsReady = record {
  sharded = record { counted = refl; positive = omega arith };
  known = refl;
  old_fit = (omega arith, tt);
  distinct = (refl, tt);
  writable = (omega arith, tt);
  slots = (omega arith, tt);
}

set_writeset_lem_example :
    (s' : ListStore checksum list_store) × (set_writeset checksum list_store versions 1 1 writeset 3
      ≡ ok s')
    × Updates checksum list_store versions 1
        (replaced checksum list_store (ltb 0 1) 1 1 writeset writer.tx_writeset_keys)
        (record writer { tx_writeset_keys = kept_keys writeset writer.tx_writeset_keys })
        s'
set_writeset_lem_example =
    Writesets.set_writeset_lem checksum list_store versions 1 1 3 writer writeset versions-IsReady

set_estimated_writeset_lem_example :
    (s' : ListStore checksum list_store) × (set_estimated_writeset checksum list_store versions 1 1
        writeset
      ≡ ok s')
    × Updates checksum list_store versions 1
        (λ k o.
          if has_key k (keys_of writeset)
          then some (new_estimate_item 1 1)
          else if has_key k writer.tx_writeset_keys
          then none
          else o)
        (record writer { tx_writeset_keys = sort_keys (keys_of writeset) })
        s'
set_estimated_writeset_lem_example =
    Writesets.set_estimated_writeset_lem checksum list_store versions 1 1 writer writeset
      versions-IsReady

versions-HaveSlot : AllHaveSlot (size checksum version_map) 1 writer.tx_writeset_keys
unfolding get load compare_bytes
versions-HaveSlot = (omega arith, tt)

check_readset_at_index_lem_example :
    (b : Bool) × (l : List ℕ) × (check_readset_at_index checksum list_store versions 1 ≡ ok (b, l))
    × ((b ≡ true)
        ↔ AllCurrent
            (list_store.view parent)
            (latest_before checksum list_store versions 1)
            writer.readset)
    × IsAscending l
    × ((i : ℕ)
        → member i l ≡ has_conflict i (latest_before checksum list_store versions 1) writer.readset)
check_readset_at_index_lem_example =
    Readsets.check_readset_at_index_lem checksum list_store versions 1 writer tt refl
      ((omega arith, omega arith), tt)

collects_own_example :
    (l : List Bytes) × (collect_iterator_items checksum list_store versions 1 1 ≡ ok l)
    × ((k : Bytes) → has_key k l ≡ (ltb 0 1 && has_key k writer.tx_writeset_keys))
collects_own_example = Readsets.collects_own checksum list_store versions 1 1 writer refl
