-- ===== src/Tests/MvKv.antt =====
-- multiversion/mvkv.go over the list store of `Tests.ListStore`.
use melodiasdk_io_store.Prelude.{
  ◌≡◌, refl, true, false, [], ◌∷◌, some, none, ok, panic, arith, estimate_read,
}
use melodiasdk_io_store.Bytes.{compare_bytes}
use melodiasdk_io_store.Bytes.Order.{compare_dir}
use melodiasdk_io_store.Sorted.{find}
use melodiasdk_io_store.SyncMap.{load}
use melodiasdk_io_store.MultiVersion.ValueItem.{ValueItem, is_estimate, new_estimate_item}
use melodiasdk_io_store.MultiVersion.ListItem.{
  get_latest_before_index, get_latest_before_index_expansion, scan_down, expand,
}
use melodiasdk_io_store.MultiVersion.ShardedMap.{get}
use melodiasdk_io_store.MultiVersion.Interface.{MultiVersionStore}
use melodiasdk_io_store.MultiVersion.ListStore.{latest_before, latest_before_expansion}
use melodiasdk_io_store.MultiVersion.ListStore.Readsets.{unwritten}
use melodiasdk_io_store.MultiVersion.ListStore.Instance.{list_versions}
use melodiasdk_io_store.MultiVersion.MvKv
use melodiasdk_io_store.MultiVersion.MvKv.{
  VersionIndexedStore, set_value, write_abort, validate_readset,
}
use melodiasdk_io_store.MultiVersion.MvKv.View
use melodiasdk_io_store.MultiVersion.MvKv.Verdict
use melodiasdk_io_store.MultiVersion.MvKv.Verdict.{ReadHolds}
use melodiasdk_io_store.MultiVersion.ListStore.{
  keys_of, VersionStoreIndexKeys, no_keys, check_readset_at_index,
}
use melodiasdk_io_store.MultiVersion.ListStore.Keys.{Every}
use melodiasdk_io_store.Prelude.{◌↔◌}
use melodiasdk_io_store.MultiVersion.MvKv.Validation
use melodiasdk_io_store.MultiVersion.MvKv.Blocked
use melodiasdk_io_store.MultiVersion.MvKv.Blocked.{IsBlockedBy}
use melodiasdk_io_store.MultiVersion.MvKv.View.{IsOk, Shows, view, latest, is_blocked, prepared}
use melodiasdk_io_store.MultiVersion.MvKv.Current
use melodiasdk_io_store.MultiVersion.MvKv.Current.{ReadsAreCurrent, AllSettled}
use melodiasdk_io_store.Tests.Model.{list_store}
use melodiasdk_io_store.Tests.ListStore.{checksum, parent, versions, writer}

abbrev mvs : MultiVersionStore
mvs = list_versions checksum list_store

-- Transaction 2 has written the third key and read the parent's second key, which is missing.
abbrev txn : VersionIndexedStore list_store mvs
txn = record {
  readset = (2 ∷ [], none ∷ []) ∷ [];
  writeset = (3 ∷ [], some (6 ∷ [])) ∷ [];
  iterateset = [];
  multi_version_store = versions;
  parent = parent;
  transaction_index = 2;
  incarnation = 0;
  abort_channel = [];
  capacity = 1;
  total_task = 3;
}

-- Transaction 1 has left an estimate under the first key.
abbrev blocked : VersionIndexedStore list_store mvs
blocked = record txn {
  multi_version_store = record versions {
    shard_map = record {
      shards =
          []
          ∷ ((1 ∷ [], record { value_list = none ∷ some (new_estimate_item 1 0) ∷ none ∷ [] }) ∷ [])
          ∷ []
          ∷ []
          ∷ [];
      shard_count = 4;
    };
  };
}

txn-IsOk : IsOk list_store mvs txn
txn-IsOk = record {
  parent_ok = tt;
  versions_ok = record { counted = refl; positive = omega arith };
  once = ((none, refl), tt);
}

txn-not_blocked : is_blocked list_store mvs txn (1 ∷ []) ≡ false
unfolding load get latest_before_expansion compare_bytes get_latest_before_index_expansion scan_down
    expand is_estimate
txn-not_blocked = refl

txn-current : ReadsAreCurrent list_store mvs txn
unfolding latest_before load get compare_bytes get_latest_before_index scan_down find compare_dir
txn-current = ((none, refl, unwritten refl refl), tt)

get_lem_example :
    (s' : VersionIndexedStore list_store mvs) × (MvKv.get list_store mvs (1 ∷ []) txn
      ≡ (ok (view list_store mvs txn (1 ∷ [])), s'))
    × Shows list_store mvs txn s'
get_lem_example =
    View.get_lem list_store mvs txn (1 ∷ []) txn-IsOk (omega arith, omega arith) txn-not_blocked

get-repeatable_example :
    (s' : VersionIndexedStore list_store mvs) × (MvKv.get list_store mvs (1 ∷ []) txn
      ≡ (ok (view list_store mvs txn (1 ∷ [])), s'))
    × (MvKv.get list_store mvs
          (1 ∷ [])
          (record s' { multi_version_store = blocked.multi_version_store; parent = ([], tt, tt) })
        ≡ (
          ok (view list_store mvs txn (1 ∷ [])),
          record s' { multi_version_store = blocked.multi_version_store; parent = ([], tt, tt) },
        ))
get-repeatable_example =
    View.get-repeatable list_store mvs txn (1 ∷ []) blocked.multi_version_store ([], tt, tt)
      txn-IsOk (omega arith, omega arith) txn-not_blocked

is_blocked-blocked : is_blocked list_store mvs blocked (1 ∷ []) ≡ true
unfolding load get latest_before_expansion compare_bytes get_latest_before_index_expansion scan_down
    expand is_estimate
is_blocked-blocked = refl

get-blocked_example :
    (v : ValueItem) × (s' : VersionIndexedStore list_store mvs) × (latest list_store mvs blocked
        (1 ∷ [])
      ≡ some v)
    × (MvKv.get list_store mvs (1 ∷ []) blocked ≡ (panic estimate_read, s'))
    × IsBlockedBy list_store mvs blocked (1 ∷ []) v.index s'
get-blocked_example =
    Blocked.get-blocked list_store mvs blocked (1 ∷ []) (omega arith, omega arith)
      is_blocked-blocked

get-ReadsAreCurrent_example :
    (s' : VersionIndexedStore list_store mvs) × (MvKv.get list_store mvs (1 ∷ []) txn
      ≡ (ok (view list_store mvs txn (1 ∷ [])), s'))
    × IsOk list_store mvs s'
    × ReadsAreCurrent list_store mvs s'
get-ReadsAreCurrent_example =
    Current.get-ReadsAreCurrent list_store mvs txn (1 ∷ []) txn-IsOk (omega arith, omega arith)
      txn-not_blocked txn-current

validate_readset_lem_example :
    ((validate_readset list_store mvs txn).0 ≡ ok true)
    ↔ Every (ReadHolds list_store mvs txn) (keys_of txn.readset)
validate_readset_lem_example =
    Verdict.validate_readset_lem list_store mvs txn tt ((omega arith, omega arith), tt)

-- Transaction 2 has handed over its read set.
abbrev handed_keys : VersionStoreIndexKeys
handed_keys = record no_keys { readset = txn.readset }

abbrev handed : VersionIndexedStore list_store mvs
handed = record txn {
  multi_version_store = record versions { keys_list = no_keys ∷ writer ∷ handed_keys ∷ [] };
}

validations_agree_example :
    ((validate_readset list_store mvs handed).0 ≡ ok true)
    ↔ (check_readset_at_index checksum list_store handed.multi_version_store 2 ≡ ok (true, []))
validations_agree_example =
    Validation.validations_agree checksum list_store handed handed_keys tt refl refl refl
      ((omega arith, omega arith), tt) (refl, tt)
