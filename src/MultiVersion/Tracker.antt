-- ===== src/MultiVersion/Tracker.antt =====
-- multiversion/mvkv.go, `iterationTracker`, and multiversion/trackediterator.go: which keys an iteration saw.
-- The tracker is shared by the store and the iterator; each method gives it back changed.
use melodiasdk_io_store.Prelude.{Bool, true, false, List, [], ◌∷◌, none, some, Result, ok, ◌>>=◌}
use melodiasdk_io_store.Bytes.{Bytes, Slice}
use melodiasdk_io_store.SyncMap.{SyncMap, store}
use melodiasdk_io_store.Iterator.{Iter, iter_key, iter_value, iter_next}

abbrev pub WriteSet : Type 0
WriteSet = SyncMap Slice

abbrev pub ReadSet : Type 0
ReadSet = SyncMap (List Slice)

pub record IterationTracker : Type 0 where
  pub start_key : Slice
  pub end_key : Slice
  pub early_stop_key : Slice
  pub iterated_keys : SyncMap (Unit {0})
  pub ascending : Bool
  pub writeset : WriteSet

abbrev pub Iterateset : Type 0
Iterateset = List IterationTracker

-- The write set is copied, which a value is anyway.
unfoldable pub new_iteration_tracker : Slice → Slice → Bool → WriteSet → IterationTracker
new_iteration_tracker start_key end_key ascending writeset = record {
  start_key = start_key;
  end_key = end_key;
  early_stop_key = none;
  iterated_keys = [];
  ascending = ascending;
  writeset = writeset;
}

unfoldable pub set_early_stop_key : Slice → IterationTracker → IterationTracker
set_early_stop_key key item = record item { early_stop_key = key }

unfoldable pub add_key : Bytes → IterationTracker → IterationTracker
unfolding set_early_stop_key
add_key key item =
    set_early_stop_key (some key) (record item { iterated_keys = store key tt item.iterated_keys })

pub record TrackedIterator : Type 0 where
  pub iterator : Iter
  pub iterateset : IterationTracker

-- The key is added after it was read.
abbrev pub track : Bytes → TrackedIterator → TrackedIterator
track key ti = record ti { iterateset = add_key key ti.iterateset }

unfoldable pub valid : TrackedIterator → Bool × TrackedIterator
unfolding add_key
valid ti = elim ti.iterator [
  | [] ↦ (false, record ti { iterateset = set_early_stop_key none ti.iterateset })
  | (key, value) ∷ l ↦ (true, track key ti)
]

unfoldable pub key : TrackedIterator → Result (Bytes × TrackedIterator)
unfolding add_key
key ti = do key ← iter_key ti.iterator; ok (key, track key ti)

unfoldable pub value : TrackedIterator → Result (Slice × TrackedIterator)
unfolding add_key
value ti = do key ← iter_key ti.iterator; val ← iter_value ti.iterator; ok (val, track key ti)

unfoldable pub next : TrackedIterator → Result TrackedIterator
unfolding add_key
next ti = do
  key ← iter_key ti.iterator
  it ← iter_next ti.iterator
  ok (record (track key ti) { iterator = it })
