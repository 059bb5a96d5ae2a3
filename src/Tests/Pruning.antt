-- ===== src/Tests/Pruning.antt =====
-- The pruning manager of pruning/manager.go over a database that is a function.
use melodiasdk_io_store.Prelude.{
  ◌≡◌, refl, ap, sym, ◌∙◌, [], ◌∷◌, none, some, Result, ok, panic, arith, if◌then◌else◌,
}
use melodiasdk_io_store.Bytes.{Bytes, Slice, bytes_eq, is_eq}
use melodiasdk_io_store.Bytes.Order.{compare_bytes_refl}
use melodiasdk_io_store.Pruning.Options.{PruningStrategy}
use melodiasdk_io_store.Pruning.Manager.{
  Db, Manager, handle_snapshot_height, load_pruning_snapshot_heights, next_heights,
  get_pruning_height, sort_heights, insert_height, drop_run, bounded_height, int64_slice_to_bytes,
  prune_snapshot_heights_key,
}
use melodiasdk_io_store.Pruning.Heights
use melodiasdk_io_store.Pruning.Heights.{IsBounded, Prunes}
use melodiasdk_io_store.Pruning.Recovery.{AllFit}
use melodiasdk_io_store.Pruning.Recovery
use melodiasdk_io_store.Pruning.Snapshots
use melodiasdk_io_store.Pruning.Snapshots.{Keeps}

abbrev Table : Type 0
Table = Bytes → Slice

abbrev put : Table → Bytes → Bytes → Table
put d k v j = if bytes_eq j k then some v else d j

put_lem : (d d' : Table) (k v : Bytes) → ok (put d k v) ≡ ok d' → ok (d' k) ≡ ok (some v)
put_lem d d' k v e =
    ap (λ r. at_key r) (sym e)
    ∙ ap (λ o. ok (if is_eq o then some v else d k)) (compare_bytes_refl k)
  where
    at_key : Result Table → Result Slice
    at_key (ok f) = ok (f k)
    at_key (panic x) = panic x

abbrev table : Db
table = record {
  State = Table;
  get = λ d k. ok (d k);
  set_sync = λ d k v. ok (put d k v);
  get_set = put_lem;
}

-- Snapshots at every 50 heights, of which that at 100 is done; 10 heights are kept, and every 20 pruned.
abbrev manager : Manager table
manager = record {
  db = λ k. none;
  opts = record { keep_recent = 10; interval = 20; strategy = PruningStrategy.pruning_custom };
  snapshot_interval = 50;
  prune_snapshot_heights = 100 ∷ [];
}

get_pruning_height-Prunes_example :
    Prunes table manager 200 100 (get_pruning_height table manager 200)
get_pruning_height-Prunes_example =
    Heights.get_pruning_height-Prunes table manager 200 100 []
      (record {
        height_fits = omega arith;
        keep_recent_fits = omega arith;
        next_fits = omega arith;
      })
      refl

-- The snapshot at 150 is not done, so 149 is the last height that may go; 189 without snapshots.
held_by_snapshot : get_pruning_height table manager 200 ≡ 149
unfolding get_pruning_height bounded_height
held_by_snapshot = refl

-- The snapshot at 200 is done before that at 150, and then that one.
out_of_order :
    next_heights table (record manager { prune_snapshot_heights = 100 ∷ 200 ∷ [] }) 150 ≡ 200 ∷ []
unfolding next_heights sort_heights insert_height drop_run
out_of_order = refl

abbrev after_150 : Manager table
after_150 = record manager {
  prune_snapshot_heights = next_heights table manager 150;
  db =
      put (λ k. none) prune_snapshot_heights_key
        (int64_slice_to_bytes (next_heights table manager 150));
}

load-handle_snapshot_height_example :
    AllFit after_150.prune_snapshot_heights
    × (load_pruning_snapshot_heights table after_150.db ≡ ok after_150.prune_snapshot_heights)
    × (after_150.prune_snapshot_heights ≡ next_heights table manager 150)
unfolding handle_snapshot_height
load-handle_snapshot_height_example =
    Recovery.load-handle_snapshot_height table manager after_150 150 refl (omega arith)
      (omega arith) (omega arith, tt) refl

next_heights-Keeps_example : Keeps 50 (100 ∷ 150 ∷ []) (next_heights table manager 150)
next_heights-Keeps_example =
    Snapshots.next_heights-Keeps table manager 150 (omega arith, tt) (omega arith)

-- A height that is there twice ends the run: its next height, 150, is not directly behind it.
twice_the_same :
    next_heights table (record manager { prune_snapshot_heights = 100 ∷ 100 ∷ [] }) 150
    ≡ 100 ∷ 100 ∷ 150 ∷ []
unfolding next_heights sort_heights insert_height drop_run
twice_the_same = refl
