-- ===== src/Snapshots/Manager/Exclusive.antt =====
-- The operations of the snapshot manager exclude one another.
use melodiasdk_io_store.Prelude.{
  ℕ, ◌≡◌, refl, sym, ap, ◌∙◌, subst, ◌⊎◌, inl, inr, false, Option, none, some, arith, if◌then◌else◌,
  Option-cases, if-false, if-not, not,
}
use melodiasdk_io_store.Bytes.{Bytes}
use melodiasdk_io_store.Snapshots.Chunk.{Error, conflict}
use melodiasdk_io_store.Snapshots.Manager.{
  Operation, op_none, op_snapshot, op_prune, op_restore, Snapshot, SnapshotStore, Manager,
  is_none_op, done_of, check_latest, create_begun, check_snapshot, restore_begun, restore_checked,
  after_begin, start_restore, begin_locked, end_locked, create, prune, restore, report,
  restore_local_snapshot, new_manager,
}
use melodiasdk_io_store.Snapshots.Manager.Steps.{
  Running, begun, Step, Reach, here, next, begin_create, end_create, begin_prune, end_prune,
  begin_restore, restore_reports, loader_receives, restore_chunk_step, restore_local, IsReset, Runs,
  IsExclusive, end_locked-IsReset, end_locked-operation, IsReset-operation, Runs-single, ended,
}
use melodiasdk_io_store.Snapshots.Manager.Chunks.{restore_chunk-IsExclusive, receive-IsExclusive}

module _ (st : SnapshotStore) (sha256 : Bytes → Bytes) where
  begin_locked-idle :
      (op : Operation) (m : Manager st sha256)
      → is_none_op op ≡ false
      → m.operation ≡ op_none
      → begin_locked st sha256 op m ≡ (none, record m { operation = op })
  unfolding begin_locked
  begin_locked-idle op m o e =
      if-false (is_none_op op) _ _ o ∙ if-not (is_none_op m.operation) _ _ (ap is_none_op e)

  begin_locked-busy :
      (op : Operation) (m : Manager st sha256)
      → is_none_op op ≡ false
      → is_none_op m.operation ≡ false
      → begin_locked st sha256 op m ≡ (some conflict, m)
  unfolding begin_locked
  begin_locked-busy op m o e =
      if-false (is_none_op op) _ _ o
      ∙ ap (λ b. if not b then (some conflict, m) else (none, record m { operation = op })) e

  Operation-cases : (o : Operation) → (o ≡ op_none) ⊎ (is_none_op o ≡ false)
  Operation-cases op_none = inl refl
  Operation-cases op_snapshot = inr refl
  Operation-cases op_prune = inr refl
  Operation-cases op_restore = inr refl

  -- A call that begins an operation leaves another one alone, and else runs from the manager at rest.
  after_begin-cases :
      (op : Operation) (m : Manager st sha256) (r : Running)
      (work : Manager st sha256 → Option Error × Manager st sha256)
      → is_none_op op ≡ false
      → IsExclusive st sha256 (m, r)
      → (after_begin st sha256 work (begin_locked st sha256 op m) ≡ (some conflict, m))
        ⊎ ((after_begin st sha256 work (begin_locked st sha256 op m)
              ≡ work (record m { operation = op }))
            × Runs st sha256 op_none m r)
  after_begin-cases op m r work o x = elim (Operation-cases m.operation) [
    | inr busy ↦ inl (ap (after_begin st sha256 work) (begin_locked-busy op m o busy))
    | inl idle ↦ inr (
      ap (after_begin st sha256 work) (begin_locked-idle op m o idle),
      subst (λ o. Runs st sha256 o m r) idle x,
    )
  ]

  -- The state after Create, and the calls that run then.
  abbrev after_create : Running → Option Error × Manager st sha256 → Manager st sha256 × Running
  after_create r (err, m) = (m, record r { creating = begun err r.creating })

  create-IsExclusive :
      (m : Manager st sha256) (r : Running) (height : ℕ)
      → IsExclusive st sha256 (m, r)
      → IsExclusive st sha256 (after_create r (create st sha256 height m))
  unfolding create
  create-IsExclusive m r height x = elim (after_begin-cases op_snapshot m r _ refl x) [
    | inl busy ↦ subst (λ y. IsExclusive st sha256 (after_create r y)) (sym busy) x
    | inr (begins, (c, p, reset)) ↦
        subst (λ y. IsExclusive st sha256 (after_create r y)) (sym begins)
          (checked (check_latest st sha256 height (record m { operation = op_snapshot })) c p reset)
  ]
    where
      checked :
          (err : Option Error)
          → r.creating ≡ 0
          → r.pruning ≡ 0
          → IsReset st sha256 m
          → IsExclusive st sha256
              (after_create r (create_begun st sha256 (record m { operation = op_snapshot }) err))
      checked none c p reset =
          (omega (arith, c), p, IsReset-operation st sha256 op_snapshot m reset)
      checked (some e) c p reset =
          subst
            (λ o. Runs st sha256 o (end_locked st sha256 (record m { operation = op_snapshot })) r)
            (sym (end_locked-operation st sha256 _)) (c, p, end_locked-IsReset st sha256 _)

  abbrev after_prune : Running → Option Error × Manager st sha256 → Manager st sha256 × Running
  after_prune r (err, m) = (m, record r { pruning = begun err r.pruning })

  begin_locked-prune :
      (m : Manager st sha256) (r : Running)
      → IsExclusive st sha256 (m, r)
      → IsExclusive st sha256 (after_prune r (prune st sha256 m))
  unfolding prune
  begin_locked-prune m r x = elim (Operation-cases m.operation) [
    | inr busy ↦
        subst (λ y. IsExclusive st sha256 (after_prune r y))
          (sym (begin_locked-busy op_prune m refl busy)) x
    | inl idle ↦
        let (c, p, reset) = subst (λ o. Runs st sha256 o m r) idle x in
        subst (λ y. IsExclusive st sha256 (after_prune r y))
          (sym (begin_locked-idle op_prune m refl idle))
          (c, omega (arith, p), IsReset-operation st sha256 op_prune m reset)
  ]

  restore-IsExclusive :
      (m : Manager st sha256) (r : Running) (s : Snapshot)
      → IsExclusive st sha256 (m, r)
      → IsExclusive st sha256 ((restore st sha256 s m).1, r)
  unfolding restore start_restore
  restore-IsExclusive m r s x = checked (check_snapshot st sha256 s)
    where
      made :
          (err : Option Error)
          → Runs st sha256 op_none m r
          → IsExclusive st sha256
              ((restore_begun st sha256 s (record m { operation = op_restore }) err).1, r)
      made none (c, p, reset) = (c, p)
      made (some e) (c, p, reset) = (c, p)

      checked :
          (err : Option Error) → IsExclusive st sha256 ((restore_checked st sha256 s m err).1, r)
      checked (some e) = x
      checked none = elim (after_begin-cases op_restore m r _ refl x) [
        | inl busy ↦ subst (λ y. IsExclusive st sha256 (y.1, r)) (sym busy) x
        | inr (begins, idle) ↦
            subst (λ y. IsExclusive st sha256 (y.1, r)) (sym begins) (made _ idle)
      ]

  report-reset :
      (m : Manager st sha256) (err : Option Error)
      → IsReset st sha256 m
      → report st sha256 err m ≡ m
  unfolding report
  report-reset m err x = elim-none (x.no_report)
    where
      elim-none :
          m.ch_restore_done ≡ none
          → (elim m.ch_restore_done [
            | none ↦ m
            | some channel ↦ record m { ch_restore_done = some (some (done_of err)) }
          ])
            ≡ m
      elim-none e =
          ap
            (λ o. elim o [
              | none ↦ m
              | some channel ↦ record m { ch_restore_done = some (some (done_of err)) }
            ])
            e

  report-Runs :
      (o : Operation) (m : Manager st sha256) (r : Running) (err : Option Error)
      → Runs st sha256 o m r
      → Runs st sha256 o (report st sha256 err m) r
  unfolding report
  report-Runs op_none m r err (c, p, reset) =
      (c, p, subst (IsReset st sha256) (sym (report-reset m err reset)) reset)
  report-Runs op_snapshot m r err (c, p, reset) =
      (c, p, subst (IsReset st sha256) (sym (report-reset m err reset)) reset)
  report-Runs op_prune m r err (c, p, reset) =
      (c, p, subst (IsReset st sha256) (sym (report-reset m err reset)) reset)
  report-Runs op_restore m r err x = x

  report-operation :
      (m : Manager st sha256) (err : Option Error)
      → (report st sha256 err m).operation ≡ m.operation
  unfolding report
  report-operation m err = elim (Option-cases m.ch_restore_done) [
    | inl none_there ↦ rw none_there
    | inr (c, there) ↦ rw there
  ]

  restore_local-IsExclusive :
      (m : Manager st sha256) (r : Running) (result : Option Error)
      → IsExclusive st sha256 (m, r)
      → IsExclusive st sha256 ((restore_local_snapshot st sha256 result m).1, r)
  unfolding restore_local_snapshot end_locked
  restore_local-IsExclusive m r result x = elim (after_begin-cases op_restore m r _ refl x) [
    | inl busy ↦ subst (λ y. IsExclusive st sha256 (y.1, r)) (sym busy) x
    | inr (begins, (c, p, reset)) ↦
        subst (λ y. IsExclusive st sha256 (y.1, r)) (sym begins)
          (ended st sha256 (record m { operation = op_restore }) m.store r (omega (arith, c, p)))
  ]

  -- The work that runs: no more than one call, and the one that the operation is for.
  Step-IsExclusive :
      {t u : Manager st sha256 × Running}
      → Step st sha256 t u
      → IsExclusive st sha256 t
      → IsExclusive st sha256 u
  Step-IsExclusive (begin_create m r height) x = create-IsExclusive m r height x
  Step-IsExclusive (end_create m c p s) x =
      ended st sha256 m s _ (omega (arith, Runs-single st sha256 m.operation m _ x))
  Step-IsExclusive (begin_prune m r) x = begin_locked-prune m r x
  Step-IsExclusive (end_prune m c p s) x =
      ended st sha256 m s _ (omega (arith, Runs-single st sha256 m.operation m _ x))
  Step-IsExclusive (begin_restore m r s) x = restore-IsExclusive m r s x
  Step-IsExclusive (loader_receives m r n) x = receive-IsExclusive st sha256 m r n x
  Step-IsExclusive (restore_reports m r err) x =
      subst (λ o. Runs st sha256 o (report st sha256 err m) r) (sym (report-operation m err))
        (report-Runs m.operation m r err x)
  Step-IsExclusive (restore_chunk_step m r outcome chunk) x =
      restore_chunk-IsExclusive st sha256 m r outcome chunk x
  Step-IsExclusive (restore_local m r result) x = restore_local-IsExclusive m r result x

  -- Whatever goroutines call on a new manager, and in whatever order: no more than one call of Create or Prune is
  -- between its beginning and its end, it is the one of the operation, none is during a restoration, and unless a
  -- restoration is on nothing of one is left.
  pub Reach-IsExclusive :
      (store : st.State) (t : Manager st sha256 × Running)
      → Reach st sha256 (new_manager st sha256 store, record { creating = 0; pruning = 0 }) t
      → IsExclusive st sha256 t
  unfolding new_manager
  Reach-IsExclusive store _ here = (
    refl,
    refl,
    record { no_channel = refl; no_report = refl; no_snapshot = refl; no_index = refl },
  )
  Reach-IsExclusive store t (next {t = u} r s) = Step-IsExclusive s (Reach-IsExclusive store u r)
