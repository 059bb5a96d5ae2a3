-- ===== src/Tests/Store.antt =====
-- multiversion/store.go over the items of multiversion/data_list.go.
use melodiasdk_io_store.Prelude.{◌≡◌, refl, false, List, [], ◌∷◌, some, none, ok, arith}
use melodiasdk_io_store.Bytes.{Bytes, compare_bytes}
use melodiasdk_io_store.SyncMap.{load}
use melodiasdk_io_store.MultiVersion.ValueItem.{
  new_value_item, new_deleted_item, new_estimate_item, is_estimate,
}
use melodiasdk_io_store.MultiVersion.ListItem
use melodiasdk_io_store.MultiVersion.ListItem.{
  MultiVersionListItem, new_multi_version_list_item, get_latest_non_estimate, scan_down,
}
use melodiasdk_io_store.MultiVersion.ListStore.Keys.{Every}
use melodiasdk_io_store.MultiVersion.ListStore.{keys_of}
use melodiasdk_io_store.MultiVersion.Store.{
  MultiVersionValue, Store, write_latest_to_store, load_at,
}
use melodiasdk_io_store.MultiVersion.Store.Commit
use melodiasdk_io_store.MultiVersion.Store.Commit.{committed, CanCommit, keys_of_index}
use melodiasdk_io_store.Types.Validity.{IsKey}
use melodiasdk_io_store.Tests.Model.{Live, list_store}
use melodiasdk_io_store.Tests.ListStore.{parent}

abbrev list_values : MultiVersionValue
list_values = record {
  State = MultiVersionListItem;
  new_multi_version_item = new_multi_version_list_item 8;
  new_multi_version_list_item = new_multi_version_list_item;
  get_latest = ListItem.get_latest;
  get_latest_non_estimate = get_latest_non_estimate;
  get_latest_before_index = ListItem.get_latest_before_index;
  set = λ item index incarnation value. ListItem.set_value item index incarnation (some value);
  set_estimate = ListItem.set_estimate;
  delete = ListItem.delete;
  remove = ListItem.remove;
}

-- Transaction 0 has deleted the first key, transaction 1 has written the second and is to write the first
-- again.
abbrev committing : Store list_values list_store false
committing = record {
  multi_version_map =
      (2 ∷ [], some (record { value_list = none ∷ some (new_value_item 1 0 (some (7 ∷ []))) ∷ [] }))
      ∷ (
        1 ∷ [],
        some (record {
          value_list = some (new_deleted_item 0 0) ∷ some (new_estimate_item 1 0) ∷ [];
        }),
      )
      ∷ [];
  tx_writeset_keys = (0, (1 ∷ []) ∷ []) ∷ (1, (1 ∷ []) ∷ (2 ∷ []) ∷ []) ∷ [];
  tx_read_sets = [];
  tx_iterate_sets = [];
  parent_store = parent;
}

committing-ready :
    Every
      (λ k. IsKey k × CanCommit list_values (load k committing.multi_version_map))
      (keys_of committing.multi_version_map)
unfolding load compare_bytes get_latest_non_estimate scan_down is_estimate
committing-ready = (
  ((omega arith, omega arith), (refl, omega arith)),
  (((omega arith, omega arith), (refl, tt)), tt),
)

write_latest_to_store_lem_example :
    (s : Live) × (write_latest_to_store list_values list_store false committing
      ≡ ok (record committing { parent_store = s }))
    × list_store.IsOk s
    × ((j : Bytes)
        → list_store.view s j
          ≡ committed list_values (load j committing.multi_version_map) (list_store.view parent j))
write_latest_to_store_lem_example =
    Commit.write_latest_to_store_lem list_values list_store false committing tt committing-ready

not_there : load (3 ∷ []) committing.multi_version_map ≡ none
unfolding load compare_bytes
not_there = refl

no_writes : load_at {A = List Bytes} 2 committing.tx_writeset_keys ≡ none
unfolding load_at
no_writes = refl
