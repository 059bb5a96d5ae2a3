-- ===== src/Snapshots/Manager/Steps.antt =====
-- What several goroutines can do to the snapshot manager of snapshots/manager.go, and what excludes what.
use melodiasdk_io_store.Prelude.{ℕ, suc, ◌+◌, ◌≤◌, ◌≡◌, refl, Option, none, some, arith}
use melodiasdk_io_store.Bytes.{Bytes}
use melodiasdk_io_store.Snapshots.Chunk.{Error}
use melodiasdk_io_store.Snapshots.Manager.{
  Operation, op_none, op_snapshot, op_prune, op_restore, Snapshot, SnapshotStore, RestoreDone,
  Manager, receive, end_locked, create, prune, restore, report, restore_chunk,
  restore_local_snapshot,
}

-- The calls of Create and of Prune that have begun and not ended.
pub record Running : Type 0 where
  pub creating : ℕ
  pub pruning : ℕ

-- One more if the call began.
abbrev pub begun : Option Error → ℕ → ℕ
begun none n = suc n
begun (some e) n = n

module _ (st : SnapshotStore) (sha256 : Bytes → Bytes) where
  -- What can happen to a manager that several goroutines use.
  pub data Step : Manager st sha256 × Running → Manager st sha256 × Running → Type 0 where
    begin_create :
        (m : Manager st sha256) (r : Running) (height : ℕ)
        → Step
            (m, r)
            (
              (create st sha256 height m).1,
              record r { creating = begun (create st sha256 height m).0 r.creating },
            )
    end_create :
        (m : Manager st sha256) (c p : ℕ) (s : st.State)
        → Step
            (m, record { creating = suc c; pruning = p })
            (record (end_locked st sha256 m) { store = s }, record { creating = c; pruning = p })
    begin_prune :
        (m : Manager st sha256) (r : Running)
        → Step
            (m, r)
            ((prune st sha256 m).1, record r { pruning = begun (prune st sha256 m).0 r.pruning })
    end_prune :
        (m : Manager st sha256) (c p : ℕ) (s : st.State)
        → Step
            (m, record { creating = c; pruning = suc p })
            (record (end_locked st sha256 m) { store = s }, record { creating = c; pruning = p })
    begin_restore :
        (m : Manager st sha256) (r : Running) (s : Snapshot)
        → Step (m, r) ((restore st sha256 s m).1, r)
    restore_reports :
        (m : Manager st sha256) (r : Running) (err : Option Error)
        → Step (m, r) (report st sha256 err m, r)
    loader_receives :
        (m : Manager st sha256) (r : Running) (n : ℕ) → Step (m, r) (receive st sha256 n m, r)
    restore_chunk_step :
        (m : Manager st sha256) (r : Running) (outcome : Option RestoreDone) (chunk : Bytes)
        → Step (m, r) ((restore_chunk st sha256 outcome chunk m).1, r)
    restore_local :
        (m : Manager st sha256) (r : Running) (result : Option Error)
        → Step (m, r) ((restore_local_snapshot st sha256 result m).1, r)

  pub data Reach (s : Manager st sha256 × Running) : Manager st sha256 × Running → Type 0 where
    here : Reach s s
    next : {t u : Manager st sha256 × Running} → Reach s t → Step t u → Reach s u

  -- No restoration is in progress, and nothing of one is left.
  pub record IsReset (m : Manager st sha256) : Type 0 where
    pub no_channel : m.ch_restore ≡ none
    pub no_report : m.ch_restore_done ≡ none
    pub no_snapshot : m.restore_snapshot ≡ none
    pub no_index : m.restore_chunk_index ≡ 0

  -- The calls that run are those of the operation.
  abbrev pub Runs : Operation → Manager st sha256 → Running → Type 0
  Runs op_none m r = (r.creating ≡ 0) × (r.pruning ≡ 0) × IsReset m
  Runs op_snapshot m r = (r.creating ≡ 1) × (r.pruning ≡ 0) × IsReset m
  Runs op_prune m r = (r.creating ≡ 0) × (r.pruning ≡ 1) × IsReset m
  Runs op_restore m r = (r.creating ≡ 0) × (r.pruning ≡ 0)

  abbrev pub IsExclusive : Manager st sha256 × Running → Type 0
  IsExclusive (m, r) = Runs m.operation m r

  pub IsReset-operation :
      (op : Operation) (m : Manager st sha256) → IsReset m → IsReset (record m { operation = op })
  IsReset-operation op m x = record {
    no_channel = x.no_channel;
    no_report = x.no_report;
    no_snapshot = x.no_snapshot;
    no_index = x.no_index;
  }

  pub end_locked-IsReset : (m : Manager st sha256) → IsReset (end_locked st sha256 m)
  unfolding end_locked
  end_locked-IsReset m = record {
    no_channel = refl;
    no_report = refl;
    no_snapshot = refl;
    no_index = refl;
  }

  pub end_locked-operation : (m : Manager st sha256) → (end_locked st sha256 m).operation ≡ op_none
  unfolding end_locked
  end_locked-operation m = refl

  -- No more than one of the two kinds of call runs.
  pub Runs-single :
      (o : Operation) (m : Manager st sha256) (r : Running)
      → Runs o m r
      → r.creating + r.pruning ≤ 1
  Runs-single op_none m r (c, p, reset) = omega (arith, c, p)
  Runs-single op_snapshot m r (c, p, reset) = omega (arith, c, p)
  Runs-single op_prune m r (c, p, reset) = omega (arith, c, p)
  Runs-single op_restore m r (c, p) = omega (arith, c, p)

  -- A call that ends leaves nothing running.
  pub ended :
      (m : Manager st sha256) (s : st.State) (r : Running)
      → r.creating + r.pruning ≤ 0
      → IsExclusive (record (end_locked st sha256 m) { store = s }, r)
  unfolding end_locked
  ended m s r h = (
    omega arith,
    omega arith,
    record { no_channel = refl; no_report = refl; no_snapshot = refl; no_index = refl },
  )
