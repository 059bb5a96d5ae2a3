-- ===== src/Tests/Snapshots.antt =====
-- The chunks of snapshots/chunk.go and the manager of snapshots/manager.go on small inputs.
use mathlib.Core.List.{flatten}
use melodiasdk_io_store.Prelude.{
  ◌≡◌, refl, true, none, some, List, [], ◌∷◌, length, ok, panic, arith, nil_pointer,
}
use melodiasdk_io_store.Bytes.{Bytes}
use melodiasdk_io_store.Snapshots.Chunk.{
  eof, logic, conflict, failure, ChunkWriter, new_chunk_writer, channel, close, close_with_error,
  new_chunk_reader, valid_restore_height,
}
use melodiasdk_io_store.Snapshots.Chunk.Stream
use melodiasdk_io_store.Snapshots.Chunk.Stream.{write_each, read_all}
use melodiasdk_io_store.Snapshots.Chunk.Sizes
use melodiasdk_io_store.Snapshots.Chunk.Sizes.{Cuts}
use melodiasdk_io_store.Snapshots.Manager.{
  op_snapshot, Snapshot, SnapshotStore, done_of, check_snapshot, restore, restore_chunk,
  begin_locked, new_manager,
}
use melodiasdk_io_store.Types.Utils.{read_bytes}
use melodiasdk_io_store.Snapshots.Keys
use melodiasdk_io_store.Snapshots.Keys.{decode_key, encode_key}
use melodiasdk_io_store.Snapshots.Extensions.{Extension, reads, returns}
use melodiasdk_io_store.Snapshots.Manager.Exclusive
use melodiasdk_io_store.Snapshots.Manager.Steps.{here, next, begin_restore, IsExclusive}
use melodiasdk_io_store.Snapshots.Manager.Restoring
use melodiasdk_io_store.Snapshots.Manager.Restoring.{feed, at_rest, saved}

-- Three bytes and then two, in chunks of two.
abbrev slices : List Bytes
slices = (1 ∷ 2 ∷ 3 ∷ []) ∷ (4 ∷ 5 ∷ []) ∷ []

written-read_example :
    (w : ChunkWriter) × (write_each slices (new_chunk_writer 2) ≡ ok (w, none))
    × (read_all 6 3 (new_chunk_reader (channel (close w)) true) ≡ ok (1 ∷ 2 ∷ 3 ∷ 4 ∷ 5 ∷ [], eof))
unfolding flatten
written-read_example = Stream.written-read 2 3 slices (omega arith) (omega arith)

written-failed_example :
    (w : ChunkWriter) × (write_each slices (new_chunk_writer 2) ≡ ok (w, none))
    × (read_all 6 3 (new_chunk_reader (channel (close_with_error (failure 7) w)) true)
        ≡ ok (1 ∷ 2 ∷ 3 ∷ 4 ∷ 5 ∷ [], failure 7))
unfolding flatten
written-failed_example = Stream.written-failed 2 3 slices (failure 7) (omega arith) (omega arith)

written-Cuts_example :
    (w : ChunkWriter) × (write_each slices (new_chunk_writer 2) ≡ ok (w, none))
    × Cuts 2 5 (channel (close w))
unfolding flatten
written-Cuts_example = Sizes.written-Cuts 2 slices (omega arith) (omega arith)

height_zero : valid_restore_height 3 0 ≡ some logic
unfolding valid_restore_height
height_zero = refl

-- A store that keeps what is saved.
abbrev disk : SnapshotStore
disk = record {
  State = List Bytes;
  make_dir = λ s t. none;
  save_chunk_content = λ c i s t. (none, c ∷ t);
  save_snapshot = λ s t. (none, (0 ∷ []) ∷ t);
  get_latest = λ t. (none, none);
}

-- One whose directory cannot be made.
abbrev full_disk : SnapshotStore
full_disk = record {
  State = List Bytes;
  make_dir = λ s t. some (failure 28);
  save_chunk_content = λ c i s t. (none, c ∷ t);
  save_snapshot = λ s t. (none, t);
  get_latest = λ t. (none, none);
}

-- A hash in place of SHA-256: the length.
abbrev count : Bytes → Bytes
count b = length b ∷ []

abbrev snapshot : Snapshot
snapshot = record { height = 5; format = 3; chunks = 2; chunk_hashes = (1 ∷ []) ∷ (2 ∷ []) ∷ [] }

Reach-IsExclusive_example : IsExclusive disk count (
  (restore disk count snapshot (new_manager disk count [])).1,
  record { creating = 0; pruning = 0 },
)
Reach-IsExclusive_example =
    Exclusive.Reach-IsExclusive disk count []
      (
        (restore disk count snapshot (new_manager disk count [])).1,
        record { creating = 0; pruning = 0 },
      )
      (next here
        (begin_restore (new_manager disk count []) (record { creating = 0; pruning = 0 }) snapshot))

snapshot_valid : check_snapshot disk count snapshot ≡ none
unfolding check_snapshot
snapshot_valid = refl

feed-restore_example :
    ((restore disk count snapshot (at_rest disk count [])).0 ≡ none)
    × (feed disk count
          (some (done_of none))
          ((0, 9 ∷ []) ∷ (1, 7 ∷ 8 ∷ []) ∷ [])
          (restore disk count snapshot (at_rest disk count [])).1
        ≡ (ok (true, none), at_rest disk count ((0 ∷ []) ∷ (7 ∷ 8 ∷ []) ∷ (9 ∷ []) ∷ [])))
feed-restore_example =
    Restoring.feed-restore disk count 0 (9 ∷ []) ((1, 7 ∷ 8 ∷ []) ∷ []) snapshot [] none
      (record {
        makes_dir = λ s t. refl;
        saves_chunk = λ c i s t. refl;
        saves_snapshot = λ s t. refl;
      })
      snapshot_valid refl (omega arith)

snapshot_fits : check_snapshot full_disk count snapshot ≡ none
unfolding check_snapshot
snapshot_fits = refl

restore-make_dir_example :
    let (err, m) = restore full_disk count snapshot (at_rest full_disk count []) in
    (err ≡ some (failure 28))
    × (restore_chunk full_disk count (some (done_of none)) (9 ∷ []) m ≡ (panic nil_pointer, m))
    × (begin_locked full_disk count op_snapshot m ≡ (some conflict, m))
restore-make_dir_example =
    Restoring.restore-make_dir full_disk count snapshot [] (failure 28) (some (done_of none))
      (9 ∷ []) op_snapshot snapshot_fits refl refl

-- An extension that reads one payload of the two that are there.
abbrev one_payload : Extension
one_payload = record {
  snapshot_format = 1;
  supported_formats = 1 ∷ [];
  restore_extension = λ height format. reads (λ p. returns none);
}

-- A key of another length is refused.
short_key : decode_key (1 ∷ 0 ∷ 7 ∷ []) ≡ ok (some logic, (0, 0))
unfolding decode_key
short_key = refl

-- Height 258 and format 2.
whole_key :
    decode_key (1 ∷ 0 ∷ 0 ∷ 0 ∷ 0 ∷ 0 ∷ 0 ∷ 1 ∷ 2 ∷ 0 ∷ 0 ∷ 0 ∷ 2 ∷ []) ≡ ok (none, (258, 2))
unfolding decode_key read_bytes
whole_key = refl

decode_key-encode_key_example : decode_key (encode_key 258 2) ≡ ok (none, (258, 2))
decode_key-encode_key_example = Keys.decode_key-encode_key 258 2 (omega arith) (omega arith)
