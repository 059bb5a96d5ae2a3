-- ===== src/Tests/MergeIterator.antt =====
-- The merged iterator of multiversion/mergeiterator.go over a reader that logs what it is asked for.
use melodiasdk_io_store.Prelude.{
  ◌≡◌, ◌↔◌, refl, Bool, true, List, [], ◌∷◌, none, some, Result, ok, arith,
}
use melodiasdk_io_store.Bytes.{Bytes, Slice, compare_bytes}
use melodiasdk_io_store.Bytes.Order.{compare_dir}
use melodiasdk_io_store.Sorted.{find}
use melodiasdk_io_store.SyncMap.{load}
use melodiasdk_io_store.Iterator.{Iter}
use melodiasdk_io_store.CacheKv.Merge.Settle.{overlay}
use melodiasdk_io_store.CacheKv.Merge.Collect.{IsMerged}
use melodiasdk_io_store.MultiVersion.Tracker.{IterationTracker}
use melodiasdk_io_store.MultiVersion.MergeIterator.{collect}
use melodiasdk_io_store.MultiVersion.MergeIterator.Simulation.{filled, IsSteady}
use melodiasdk_io_store.MultiVersion.MergeIterator.Iterate
use melodiasdk_io_store.MultiVersion.MergeIterator.Iterate.{Agrees}
use melodiasdk_io_store.MultiVersion.MergeIterator.Verdict
use melodiasdk_io_store.MultiVersion.MergeIterator.Verdict.{Repeats}
use melodiasdk_io_store.MultiVersion.ValueItem.{is_estimate, is_deleted}
use melodiasdk_io_store.MultiVersion.MvKv.{version_value}
use melodiasdk_io_store.MultiVersion.MergeIterator.Check.{check_loop}
use melodiasdk_io_store.MultiVersion.MergeIterator.Validation
use melodiasdk_io_store.MultiVersion.MergeIterator.Validation.{
  ValidationIterator, validation_value, Serves, view, IsShown, no_op, Serves-refl,
  validation_value-IsSteady,
}
use melodiasdk_io_store.Tests.ListStore.{checksum, versions}
use melodiasdk_io_store.MultiVersion.ListItem.{get_latest_before_index, scan_down}
use melodiasdk_io_store.MultiVersion.ListStore.{latest_before, read_item}
use melodiasdk_io_store.MultiVersion.ShardedMap.{get}
use melodiasdk_io_store.Tests.Model.{list_store}
use melodiasdk_io_store.MultiVersion.ListStore.Instance.{list_versions}

-- The second key was deleted, and the third is new.
abbrev parent : Iter
parent = (1 ∷ [], some (1 ∷ [])) ∷ (2 ∷ [], some (8 ∷ [])) ∷ []

abbrev seen : Bytes → Slice
seen = overlay true parent ((2 ∷ [], none) ∷ (3 ∷ [], some (7 ∷ [])) ∷ [])

abbrev Log : Type 0
Log = List Bytes

abbrev read_logged : Bytes → Log → Result Slice × Log
read_logged k s = (ok (seen k), k ∷ s)

abbrev note_logged : Bytes → Slice → Log → Log
note_logged k v s = k ∷ s

abbrev Any : Log → Type 0
Any s = Unit

abbrev AnyKey : Bytes → Type 0
AnyKey k = Unit

steady : IsSteady Log read_logged note_logged Any AnyKey seen
steady = record { reads = λ k s f h. (k ∷ s, refl, tt); notes = λ k s h. tt }

abbrev cache : List Bytes
cache = (2 ∷ []) ∷ (3 ∷ []) ∷ []

seen_rows : filled seen cache ≡ (2 ∷ [], none) ∷ (3 ∷ [], some (7 ∷ [])) ∷ []
unfolding find compare_dir compare_bytes
seen_rows = refl

mvs_iteration_example :
    (r : Iter) × (s : Log) × (collect Log read_logged note_logged 5
        (record { parent = parent; cache = cache; ascending = true })
        []
      ≡ (ok r, s))
    × IsMerged true parent (filled seen cache) r
    × Any s
unfolding find compare_dir compare_bytes
mvs_iteration_example =
    Iterate.mvs_iteration Log read_logged note_logged Any AnyKey seen steady 5 true parent cache []
      (omega arith) ((refl, tt), (tt, tt)) ((refl, tt), (tt, tt)) (refl, (refl, tt)) (tt, (tt, tt))
      (λ j w e. e) tt

-- Transaction 2 validates an iteration; it has written the third key, and transaction 1 the first.
abbrev validation : ValidationIterator (list_versions checksum list_store)
validation = record {
  mv_store = versions;
  writeset = (3 ∷ [], some (6 ∷ [])) ∷ [];
  index = 2;
  abort_channel = [];
  capacity = 1;
  read_cache = [];
}

-- The iteration visited all three keys.
abbrev tracker : IterationTracker
tracker = record {
  start_key = none;
  end_key = none;
  early_stop_key = none;
  iterated_keys = (1 ∷ [], tt) ∷ (2 ∷ [], tt) ∷ (3 ∷ [], tt) ∷ [];
  ascending = true;
  writeset = [];
}

abbrev known_keys : List Bytes
known_keys = (1 ∷ []) ∷ (3 ∷ []) ∷ []

-- What the validation shows of the parent and of the known keys.
abbrev shown : Bytes → Slice
shown =
    overlay true parent (filled (view (list_versions checksum list_store) validation) known_keys)

check_loop_lem_example :
    (r : Iter) × (b : Bool) × (s : ValidationIterator (list_versions checksum list_store))
    × (check_loop
          (ValidationIterator (list_versions checksum list_store))
          (validation_value (list_versions checksum list_store))
          (no_op (list_versions checksum list_store))
          5
          tracker
          0
          (record { parent = parent; cache = known_keys; ascending = true })
          validation
        ≡ (ok b, s))
    × IsMerged true parent (filled shown known_keys) r
    × ((b ≡ true) ↔ Repeats tracker r 3)
unfolding load compare_bytes latest_before get get_latest_before_index scan_down read_item find
    compare_dir is_estimate is_deleted version_value
check_loop_lem_example =
    Verdict.check_loop_lem (ValidationIterator (list_versions checksum list_store))
      (validation_value (list_versions checksum list_store))
      (no_op (list_versions checksum list_store))
      (Serves (list_versions checksum list_store) validation)
      (IsShown (list_versions checksum list_store) validation shown) shown
      (validation_value-IsSteady (list_versions checksum list_store) validation shown) 5 tracker
      true parent known_keys validation (omega arith) ((refl, tt), (tt, tt)) ((refl, tt), (tt, tt))
      (refl, (refl, tt)) ((refl, refl), ((refl, refl), tt)) (λ j w e. e)
      (Serves-refl (list_versions checksum list_store) validation)
