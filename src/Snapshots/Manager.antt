-- ===== src/Snapshots/Manager.antt =====
-- snapshots/manager.go: the operations of the snapshot manager. A method runs with the mutex held, so it is one step;
-- Create and Prune are two, at the beginning and at the end of the work, since others may run in between. The store of
-- the snapshots is an interface, SHA-256 a parameter, and the goroutine of a restoration what it reports.
pub mod Steps
pub mod Chunks
pub mod Exclusive
pub mod Restoring
use melodiasdk_io_store.Prelude.{
  ℕ, ◌+◌, ◌*◌, ◌%◌, ◌^◌, ◌≡◌, Bool, true, false, Option, none, some, List, [], ◌∷◌, ◌++◌, Result,
  ok, panic, length, drop, get_elem?, ltb, leb, ◌==◌, ◌&&◌, not, if◌then◌else◌, nil_pointer,
  blocked,
}
use melodiasdk_io_store.Bytes.{Bytes, bytes_eq}
use melodiasdk_io_store.Method.{Method}
use melodiasdk_io_store.Types.Gas.{two_64}
use melodiasdk_io_store.Pruning.Manager.{two_63}
use melodiasdk_io_store.Snapshots.Chunk.{
  Error, logic, conflict, unknown_format, invalid_metadata, chunk_hash_mismatch,
}

pub data Operation : Type 0 where
  op_none op_snapshot op_prune op_restore : Operation

abbrev pub is_none_op : Operation → Bool
is_none_op op_none = true
is_none_op op_snapshot = false
is_none_op op_prune = false
is_none_op op_restore = false

abbrev pub is_restore_op : Operation → Bool
is_restore_op op_none = false
is_restore_op op_snapshot = false
is_restore_op op_prune = false
is_restore_op op_restore = true

pub record Snapshot : Type 0 where
  pub height : ℕ
  pub format : ℕ
  pub chunks : ℕ
  pub chunk_hashes : List Bytes

pub record RestoreDone : Type 0 where
  pub complete : Bool
  pub err : Option Error

-- What the goroutine of Restore reports of the error of doRestoreSnapshot.
abbrev pub done_of : Option Error → RestoreDone
done_of none = record { complete = true; err = none }
done_of (some e) = record { complete = false; err = some e }

-- The store of the snapshots and its directory, as the manager uses them.
pub record SnapshotStore : Type 1 where
  pub State : Type 0
  pub make_dir : Snapshot → State → Option Error
  pub save_chunk_content : Bytes → ℕ → Snapshot → State → Option Error × State
  pub save_snapshot : Snapshot → State → Option Error × State
  -- The height of the latest snapshot, if there is one.
  pub get_latest : State → Option Error × Option ℕ

unfoldable pub get_snapshot_block_retention_heights : ℕ → ℕ → ℕ
get_snapshot_block_retention_heights interval keep_recent = interval * keep_recent % two_64

-- `height` is the 64 bits of an int64.
unfoldable pub should_take_snapshot : ℕ → ℕ → Bool
should_take_snapshot interval height = ltb 0 interval && (height % interval == 0)

module _ (st : SnapshotStore) (sha256 : Bytes → Bytes) where
  -- `ch_restore` has the indices that wait in it, and `ch_restore_done` what is in it.
  pub record Manager : Type 0 where
    pub operation : Operation
    pub ch_restore : Option (List ℕ)
    pub ch_restore_done : Option (Option RestoreDone)
    pub restore_snapshot : Option Snapshot
    pub restore_chunk_index : ℕ
    pub store : st.State

  unfoldable pub new_manager : st.State → Manager
  new_manager store = record {
    operation = op_none;
    ch_restore = none;
    ch_restore_done = none;
    restore_snapshot = none;
    restore_chunk_index = 0;
    store = store;
  }

  unfoldable pub begin_locked : Operation → Manager → Option Error × Manager
  begin_locked op m =
      if is_none_op op
      then (some logic, m)
      else if not (is_none_op m.operation)
      then (some conflict, m)
      else (none, record m { operation = op })

  unfoldable pub end_locked : Manager → Manager
  end_locked m = record m {
    operation = op_none;
    ch_restore = none;
    ch_restore_done = none;
    restore_snapshot = none;
    restore_chunk_index = 0;
  }

  -- The tests of Create once the operation has begun: an error ends it.
  unfoldable pub check_latest : ℕ → Manager → Option Error
  check_latest height m =
      let (err, latest) = st.get_latest m.store in
      elim err [
        | some e ↦ some e
        | none ↦ elim latest [ none ↦ none | some h ↦ if leb height h then some conflict else none ]
      ]

  -- What follows a call of beginLocked: its error, or the operation.
  abbrev pub after_begin :
      (Manager → Option Error × Manager) → Option Error × Manager → Option Error × Manager
  after_begin work (some e, m) = (some e, m)
  after_begin work (none, m) = work m

  abbrev pub create_begun : Manager → Option Error → Option Error × Manager
  create_begun m (some e) = (some e, end_locked m)
  create_begun m none = (none, m)

  -- Create up to the point where the chunks are written; it goes on if there is no error.
  unfoldable pub create : ℕ → Manager → Option Error × Manager
  create height m =
      after_begin (λ m'. create_begun m' (check_latest height m')) (begin_locked op_snapshot m)

  abbrev pub u32_mod : ℕ
  u32_mod = 4294967296

  unfoldable pub check_snapshot : Snapshot → Option Error
  check_snapshot s =
      if s.chunks == 0
      then some invalid_metadata
      else if not (length s.chunk_hashes % u32_mod == s.chunks)
      then some invalid_metadata
      else if not (s.format == 3)
      then some unknown_format
      else if s.height == 0
      then some logic
      else if leb two_63 s.height
      then some invalid_metadata
      else none

  unfoldable pub start_restore : Snapshot → Manager → Manager
  start_restore s m = record m {
    ch_restore = some [];
    ch_restore_done = some none;
    restore_snapshot = some s;
    restore_chunk_index = 0;
  }

  -- MkdirAll and, without an error, the goroutine.
  abbrev pub restore_begun : Snapshot → Manager → Option Error → Option Error × Manager
  restore_begun s m (some e) = (some e, m)
  restore_begun s m none = (none, start_restore s m)

  abbrev pub restore_checked : Snapshot → Manager → Option Error → Option Error × Manager
  restore_checked s m (some e) = (some e, m)
  restore_checked s m none =
      after_begin (λ m'. restore_begun s m' (st.make_dir s m'.store)) (begin_locked op_restore m)

  unfoldable pub restore : Snapshot → Manager → Option Error × Manager
  unfolding check_snapshot
  restore s m = restore_checked s m (check_snapshot s)

  -- Prune up to the point where the store is pruned.
  unfoldable pub prune : Manager → Option Error × Manager
  unfolding begin_locked
  prune m = begin_locked op_prune m

  -- RestoreLocalSnapshot, where `result` is that of doRestoreSnapshot.
  unfoldable pub restore_local_snapshot : Option Error → Manager → Option Error × Manager
  restore_local_snapshot result m =
      after_begin (λ m'. (result, end_locked m')) (begin_locked op_restore m)

  -- The goroutine of a restoration reports.
  unfoldable pub report : Option Error → Manager → Manager
  report err m = elim m.ch_restore_done [
    | none ↦ m
    | some channel ↦ record m { ch_restore_done = some (some (done_of err)) }
  ]

  -- What RestoreChunk returns of a restoration that ended after its last chunk.
  abbrev pub result_of : RestoreDone → Bool × Option Error
  result_of outcome = elim outcome.err [
    | some e ↦ (false, some e)
    | none ↦ if outcome.complete then (true, none) else (false, some logic)
  ]

  -- What it returns where it ended before.
  abbrev pub early_result_of : RestoreDone → Option Error
  early_result_of outcome = elim outcome.err [ some e ↦ some e | none ↦ some logic ]

  -- The wait for the report, which may never come.
  abbrev pub await_report : Option RestoreDone → Method Manager (Bool × Option Error)
  await_report none m = (panic blocked, m)
  await_report (some outcome) m = (ok (result_of outcome), end_locked m)

  abbrev pub finish_saved :
      Option RestoreDone → Option Error × st.State → Method Manager (Bool × Option Error)
  finish_saved outcome (some e, store) m =
      (ok (false, some e), record m { ch_restore = none; store = store })
  finish_saved outcome (none, store) m =
      await_report outcome (record m { ch_restore = none; store = store })

  -- After the last chunk: the snapshot is saved, and the report awaited.
  unfoldable pub finish_restore :
      Option RestoreDone → Snapshot → Method Manager (Bool × Option Error)
  finish_restore outcome s m = finish_saved outcome (st.save_snapshot s m.store) m

  -- `chunkIDBufferSize`
  abbrev pub chunk_id_buffer_size : ℕ
  chunk_id_buffer_size = 1024

  -- loadChunkStream takes indices from the channel, as many as `n` if so many wait.
  unfoldable pub receive : ℕ → Manager → Manager
  receive n m = elim m.ch_restore [
    | none ↦ m
    | some waiting ↦ record m { ch_restore = some (drop n waiting) }
  ]

  -- The index is passed on, and counted. The send blocks where the channel is full, or nil.
  abbrev pub pass_to :
      Option RestoreDone → Snapshot → Option (List ℕ) → Method Manager (Bool × Option Error)
  pass_to outcome s none m = (panic blocked, m)
  pass_to outcome s (some waiting) m =
      let index = (m.restore_chunk_index + 1) % u32_mod in
      let m' = record m {
        ch_restore = some (waiting ++ (m.restore_chunk_index ∷ []));
        restore_chunk_index = index;
      } in
      if leb chunk_id_buffer_size (length waiting)
      then (panic blocked, m)
      else if leb (length s.chunk_hashes) index
      then finish_restore outcome s m'
      else (ok (false, none), m')

  abbrev pub chunk_saved :
      Option RestoreDone → Snapshot → Option Error × st.State → Method Manager (Bool × Option Error)
  chunk_saved outcome s (some e, store) m = (ok (false, some e), record m { store = store })
  chunk_saved outcome s (none, store) m =
      pass_to outcome s m.ch_restore (record m { store = store })

  -- A chunk whose hash is to be `expected`.
  unfoldable pub check_chunk :
      Option RestoreDone → Bytes → Bytes → Snapshot → Method Manager (Bool × Option Error)
  check_chunk outcome chunk expected s m =
      if not (bytes_eq (sha256 chunk) expected)
      then (ok (false, some chunk_hash_mismatch), m)
      else chunk_saved outcome s (st.save_chunk_content chunk m.restore_chunk_index s m.store) m

  -- `outcome` is what the restoration reports after its last chunk, if it ends.
  abbrev pub try_chunk :
      Option RestoreDone
      → Bytes
      → Snapshot
      → Option (Option RestoreDone)
      → Option Bytes
      → Method Manager (Bool × Option Error)
  try_chunk outcome chunk s reported none m = (ok (false, some logic), m)
  try_chunk outcome chunk s (some (some early)) (some expected) m =
      (ok (false, early_result_of early), end_locked m)
  try_chunk outcome chunk s (some none) (some expected) m = check_chunk outcome chunk expected s m
  try_chunk outcome chunk s none (some expected) m = check_chunk outcome chunk expected s m

  abbrev pub take_chunk :
      Option RestoreDone → Bytes → Option Snapshot → Method Manager (Bool × Option Error)
  take_chunk outcome chunk none m = (panic nil_pointer, m)
  take_chunk outcome chunk (some s) m =
      try_chunk outcome chunk s m.ch_restore_done (get_elem? s.chunk_hashes m.restore_chunk_index) m

  unfoldable pub restore_chunk : Option RestoreDone → Bytes → Method Manager (Bool × Option Error)
  restore_chunk outcome chunk m =
      if not (is_restore_op m.operation)
      then (ok (false, some logic), m)
      else take_chunk outcome chunk m.restore_snapshot m
