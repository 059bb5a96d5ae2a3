-- ===== src/Snapshots/Manager/Chunks.antt =====
-- RestoreChunk and the loader of snapshots/manager.go leave the operations exclusive.
use melodiasdk_io_store.Prelude.{
  drop, ℕ, ◌+◌, ◌≡◌, refl, sym, ap, subst, ◌⊎◌, inl, inr, Bool, true, false, Option, none, some,
  Result, ok, arith, if◌then◌else◌, Bool-cases, if-not, not, List, length, get_elem?, leb, ◌%◌,
}
use melodiasdk_io_store.Bytes.{Bytes, bytes_eq}
use melodiasdk_io_store.Snapshots.Chunk.{Error, logic}
use melodiasdk_io_store.Snapshots.Manager.{
  Operation, op_none, op_snapshot, op_prune, op_restore, Snapshot, SnapshotStore, RestoreDone,
  Manager, is_restore_op, finish_restore, finish_saved, await_report, receive, pass_to, chunk_saved,
  check_chunk, take_chunk, try_chunk, end_locked, restore_chunk,
}
use melodiasdk_io_store.Snapshots.Manager.Steps.{
  Running, IsReset, Runs, IsExclusive, end_locked-IsReset, end_locked-operation,
}

restore_op-eq : (o : Operation) → is_restore_op o ≡ true → o ≡ op_restore
restore_op-eq op_none h = absurd (ground arith)
restore_op-eq op_snapshot h = absurd (ground arith)
restore_op-eq op_prune h = absurd (ground arith)
restore_op-eq op_restore h = refl

module _ (st : SnapshotStore) (sha256 : Bytes → Bytes) where
  -- RestoreChunk ends the restoration or leaves it on.
  abbrev EndsOrStays : Manager st sha256 → Type 0
  EndsOrStays m = (m.operation ≡ op_restore) ⊎ ((m.operation ≡ op_none) × IsReset st sha256 m)

  end_locked-EndsOrStays : (m : Manager st sha256) → EndsOrStays (end_locked st sha256 m)
  end_locked-EndsOrStays m = inr (end_locked-operation st sha256 m, end_locked-IsReset st sha256 m)

  finish_restore-EndsOrStays :
      (outcome : Option RestoreDone) (s : Snapshot) (m : Manager st sha256)
      → m.operation ≡ op_restore
      → EndsOrStays (finish_restore st sha256 outcome s m).1
  unfolding finish_restore
  finish_restore-EndsOrStays outcome s m h = saved (st.save_snapshot s m.store)
    where
      awaited :
          (q : st.State) (d : Option RestoreDone)
          → EndsOrStays (await_report st sha256 d (record m { ch_restore = none; store = q })).1
      awaited q none = inl h
      awaited q (some reported) = end_locked-EndsOrStays _

      saved : (x : Option Error × st.State) → EndsOrStays (finish_saved st sha256 outcome x m).1
      saved (none, store) = awaited store outcome
      saved (some e, store) = inl h

  pass_to-EndsOrStays :
      (outcome : Option RestoreDone) (s : Snapshot) (sent : Option (List ℕ)) (m : Manager st sha256)
      → m.operation ≡ op_restore
      → EndsOrStays (pass_to st sha256 outcome s sent m).1
  pass_to-EndsOrStays outcome s none m h = inl h
  pass_to-EndsOrStays outcome s (some sent) m h = elim (Bool-cases (leb 1024 (length sent))) [
    | inl full ↦ rw full (inl h)
    | inr room ↦
        elim (Bool-cases (leb (length s.chunk_hashes) ((m.restore_chunk_index + 1) % 4294967296))) [
          | inl last ↦ rw (room, last) (finish_restore-EndsOrStays outcome s _ h)
          | inr more ↦ rw (room, more) (inl h)
        ]
  ]

  check_chunk-EndsOrStays :
      (outcome : Option RestoreDone) (chunk expected : Bytes) (s : Snapshot) (m : Manager st sha256)
      → m.operation ≡ op_restore
      → EndsOrStays (check_chunk st sha256 outcome chunk expected s m).1
  unfolding check_chunk
  check_chunk-EndsOrStays outcome chunk expected s m h =
      elim (Bool-cases (bytes_eq (sha256 chunk) expected)) [
        | inl same ↦ rw same (saved (st.save_chunk_content chunk m.restore_chunk_index s m.store))
        | inr other ↦ rw other (inl h)
      ]
    where
      saved : (x : Option Error × st.State) → EndsOrStays (chunk_saved st sha256 outcome s x m).1
      saved (none, store) = pass_to-EndsOrStays outcome s m.ch_restore _ h
      saved (some e, store) = inl h

  take_chunk-EndsOrStays :
      (outcome : Option RestoreDone) (chunk : Bytes) (o : Option Snapshot) (m : Manager st sha256)
      → m.operation ≡ op_restore
      → EndsOrStays (take_chunk st sha256 outcome chunk o m).1
  take_chunk-EndsOrStays outcome chunk none m h = inl h
  take_chunk-EndsOrStays outcome chunk (some s) m h =
      tried m.ch_restore_done (get_elem? s.chunk_hashes m.restore_chunk_index)
    where
      tried :
          (c : Option (Option RestoreDone)) (o : Option Bytes)
          → EndsOrStays (try_chunk st sha256 outcome chunk s c o m).1
      tried c none = inl h
      tried none (some expected) = check_chunk-EndsOrStays outcome chunk expected s m h
      tried (some none) (some expected) = check_chunk-EndsOrStays outcome chunk expected s m h
      tried (some (some early)) (some expected) = end_locked-EndsOrStays m

  restore_chunk-EndsOrStays :
      (outcome : Option RestoreDone) (chunk : Bytes) (m : Manager st sha256)
      → m.operation ≡ op_restore
      → EndsOrStays (restore_chunk st sha256 outcome chunk m).1
  unfolding restore_chunk
  restore_chunk-EndsOrStays outcome chunk m h =
      subst (λ (x : Result (Bool × Option Error) × Manager st sha256). EndsOrStays x.1)
        (sym (if-not (is_restore_op m.operation) _ _ (ap is_restore_op h)))
        (take_chunk-EndsOrStays outcome chunk m.restore_snapshot m h)

  EndsOrStays-IsExclusive :
      (m m' : Manager st sha256) (r : Running)
      → m.operation ≡ op_restore
      → IsExclusive st sha256 (m, r)
      → EndsOrStays m'
      → IsExclusive st sha256 (m', r)
  EndsOrStays-IsExclusive m m' r h x e =
      let (c, p) = subst (λ o. Runs st sha256 o m r) h x in
      elim e [
        | inl stays ↦ subst (λ o. Runs st sha256 o m' r) (sym stays) (c, p)
        | inr (ends, reset) ↦ subst (λ o. Runs st sha256 o m' r) (sym ends) (c, p, reset)
      ]

  pub restore_chunk-IsExclusive :
      (m : Manager st sha256) (r : Running) (outcome : Option RestoreDone) (chunk : Bytes)
      → IsExclusive st sha256 (m, r)
      → IsExclusive st sha256 ((restore_chunk st sha256 outcome chunk m).1, r)
  unfolding restore_chunk
  restore_chunk-IsExclusive m r outcome chunk x = elim (Bool-cases (is_restore_op m.operation)) [
    | inl on ↦
        EndsOrStays-IsExclusive m _ r (restore_op-eq m.operation on) x
          (restore_chunk-EndsOrStays outcome chunk m (restore_op-eq m.operation on))
    | inr off ↦
        subst
          (λ b. IsExclusive st sha256 (
            (if not b
                then (ok (false, some logic), m)
                else take_chunk st sha256 outcome chunk m.restore_snapshot m).1,
            r,
          ))
          (sym off) x
  ]

  pub receive-IsExclusive :
      (m : Manager st sha256) (r : Running) (n : ℕ)
      → IsExclusive st sha256 (m, r)
      → IsExclusive st sha256 (receive st sha256 n m, r)
  unfolding receive
  receive-IsExclusive m r n x = by_channel m.ch_restore refl
    where
      by_operation :
          (o : Operation) (waiting : List ℕ)
          → m.ch_restore ≡ some waiting
          → Runs st sha256 o m r
          → Runs st sha256 o (record m { ch_restore = some (drop n waiting) }) r
      by_operation op_none w e (c, p, reset) = absurd (ground (arith, e, reset.no_channel))
      by_operation op_snapshot w e (c, p, reset) = absurd (ground (arith, e, reset.no_channel))
      by_operation op_prune w e (c, p, reset) = absurd (ground (arith, e, reset.no_channel))
      by_operation op_restore w e y = y

      by_channel :
          (o : Option (List ℕ))
          → m.ch_restore ≡ o
          → IsExclusive st sha256 (
            elim o [ none ↦ m | some waiting ↦ record m { ch_restore = some (drop n waiting) } ],
            r,
          )
      by_channel none e = x
      by_channel (some w) e = by_operation m.operation w e x
