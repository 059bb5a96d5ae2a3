-- ===== src/Snapshots/Manager/Restoring.antt =====
-- A restoration by snapshots/manager.go from Restore to its last chunk, and where it cannot begin.
use mathlib.Core.List.{append_assoc}
use melodiasdk_io_store.Prelude.{
  ℕ, zero, suc, ◌+◌, ◌%◌, ◌<◌, ◌≤◌, drop, ◌≡◌, refl, sym, ap, ◌∙◌, subst, Bool, true, false, Option,
  none, some, List, [], ◌∷◌, ◌++◌, map, Result, ok, panic, length, length-append, get_elem?, arith,
  leb, if-true, if-false, if-not, nil_pointer,
}
use melodiasdk_io_store.Bytes.{Bytes, bytes_eq, is_eq}
use melodiasdk_io_store.Bytes.Order.{compare_bytes_refl}
use melodiasdk_io_store.Method.{Method}
use melodiasdk_io_store.Snapshots.Chunk.{Error, conflict}
use melodiasdk_io_store.Snapshots.Manager.{
  Operation, op_none, op_restore, is_none_op, Snapshot, SnapshotStore, RestoreDone, done_of,
  Manager, result_of, begin_locked, end_locked, check_snapshot, restore, restore_begun,
  restore_checked, start_restore, finish_restore, finish_saved, pass_to, chunk_saved, check_chunk,
  try_chunk, restore_chunk, receive,
}

module _ (st : SnapshotStore) (sha256 : Bytes → Bytes) where
  -- The store saves without an error.
  pub record Saves : Type 0 where
    pub makes_dir : (s : Snapshot) (t : st.State) → st.make_dir s t ≡ none
    pub saves_chunk :
        (c : Bytes) (i : ℕ) (s : Snapshot) (t : st.State) → (st.save_chunk_content c i s t).0 ≡ none
    pub saves_snapshot : (s : Snapshot) (t : st.State) → (st.save_snapshot s t).0 ≡ none

  -- The store after the chunks from an index on are saved, in order, and then the snapshot.
  abbrev pub saved : List Bytes → ℕ → Snapshot → st.State → st.State
  saved [] i s t = (st.save_snapshot s t).1
  saved (c ∷ l) i s t = saved l (i + 1) s (st.save_chunk_content c i s t).1

  abbrev pub bytes_of : List (ℕ × Bytes) → List Bytes
  bytes_of [] = []
  bytes_of ((n, c) ∷ l) = c ∷ bytes_of l

  -- A client that gives chunks until it is told an end or an error. Before each chunk the loader receives some of the
  -- indices that wait.
  abbrev after_chunk :
      Method (Manager st sha256) (Bool × Option Error)
      → Result (Bool × Option Error) × Manager st sha256
      → Result (Bool × Option Error) × Manager st sha256
  after_chunk rest (ok (false, none), m) = rest m
  after_chunk rest (ok (false, some e), m) = (ok (false, some e), m)
  after_chunk rest (ok (true, err), m) = (ok (true, err), m)
  after_chunk rest (panic e, m) = (panic e, m)

  unfoldable pub feed :
      Option RestoreDone → List (ℕ × Bytes) → Method (Manager st sha256) (Bool × Option Error)
  unfolding restore_chunk receive
  feed outcome [] m = (ok (false, none), m)
  feed outcome ((n, c) ∷ []) m = restore_chunk st sha256 outcome c (receive st sha256 n m)
  feed outcome ((n, c) ∷ d ∷ l) m =
      after_chunk (feed outcome (d ∷ l)) (restore_chunk st sha256 outcome c (receive st sha256 n m))

  -- The manager while a snapshot is restored.
  abbrev restoring : Snapshot → ℕ → List ℕ → st.State → Manager st sha256
  restoring s i sent t = record {
    operation = op_restore;
    ch_restore = some sent;
    ch_restore_done = some none;
    restore_snapshot = some s;
    restore_chunk_index = i;
    store = t;
  }

  -- The manager at rest.
  abbrev pub at_rest : st.State → Manager st sha256
  at_rest t = record {
    operation = op_none;
    ch_restore = none;
    ch_restore_done = none;
    restore_snapshot = none;
    restore_chunk_index = 0;
    store = t;
  }

  -- A chunk with the hash that the snapshot has for it.
  restore_chunk-matches :
      (outcome : Option RestoreDone) (c : Bytes) (s : Snapshot) (i : ℕ) (sent : List ℕ)
      (t : st.State)
      → Saves
      → get_elem? s.chunk_hashes i ≡ some (sha256 c)
      → restore_chunk st sha256 outcome c (restoring s i sent t)
        ≡ pass_to st sha256 outcome s
            (some sent)
            (restoring s i sent (st.save_chunk_content c i s t).1)
  unfolding restore_chunk check_chunk
  restore_chunk-matches outcome c s i sent t h e =
      ap (λ o. try_chunk st sha256 outcome c s (some none) o (restoring s i sent t)) e
      ∙ if-not (bytes_eq (sha256 c) (sha256 c)) _ _ (ap is_eq (compare_bytes_refl (sha256 c)))
      ∙ ap
          (λ o.
            chunk_saved st sha256 outcome s (o, (st.save_chunk_content c i s t).1)
              (restoring s i sent t))
          (h.saves_chunk c i s t)

  get_elem?-append :
      (pre l : List Bytes) (x : Bytes) → get_elem? (pre ++ x ∷ l) (length pre) ≡ some x
  get_elem?-append [] l x = refl
  get_elem?-append (y ∷ pre) l x = get_elem?-append pre l x

  pass_to-more :
      (outcome : Option RestoreDone) (s : Snapshot) (i : ℕ) (sent : List ℕ) (t : st.State)
      → length sent < 1024
      → length s.chunk_hashes < 4294967296
      → i + 1 < length s.chunk_hashes
      → pass_to st sha256 outcome s (some sent) (restoring s i sent t)
        ≡ (ok (false, none), restoring s (i + 1) (sent ++ (i ∷ [])) t)
  pass_to-more outcome s i sent t room fits lt =
      let same : (i + 1) % 4294967296 ≡ i + 1 = omega arith in
      if-false (leb 1024 (length sent)) _ _ (ground (arith, room))
      ∙ if-false (leb (length s.chunk_hashes) ((i + 1) % 4294967296)) _ _ (ground (arith, same))
      ∙ ap (λ j. (ok (false, none), restoring s j (sent ++ (i ∷ [])) t)) same

  pass_to-last :
      (outcome : RestoreDone) (s : Snapshot) (i : ℕ) (sent : List ℕ) (t : st.State)
      → Saves
      → length sent < 1024
      → length s.chunk_hashes < 4294967296
      → i + 1 ≡ length s.chunk_hashes
      → pass_to st sha256 (some outcome) s (some sent) (restoring s i sent t)
        ≡ (ok (result_of st sha256 outcome), at_rest (st.save_snapshot s t).1)
  unfolding finish_restore end_locked
  pass_to-last outcome s i sent t h room fits last =
      let same : (i + 1) % 4294967296 ≡ i + 1 = omega arith in
      if-false (leb 1024 (length sent)) _ _ (ground (arith, room))
      ∙ if-true (leb (length s.chunk_hashes) ((i + 1) % 4294967296)) _ _
          (ground (arith, same, last))
      ∙ ap
          (λ o.
            finish_saved st sha256 (some outcome) (o, (st.save_snapshot s t).1)
              (restoring s ((i + 1) % 4294967296) (sent ++ (i ∷ [])) t))
          (h.saves_snapshot s t)

  length-drop : (n : ℕ) (l : List ℕ) → length (drop n l) ≤ length l
  length-drop zero l = omega arith
  length-drop (suc n) [] = omega arith
  length-drop (suc n) (x ∷ l) = omega (arith, length-drop n l)

  -- The chunks from an index on, the hashes of those before it being `pre`.
  feed_lem :
      (outcome : RestoreDone) (n : ℕ) (c : Bytes) (l : List (ℕ × Bytes)) (pre : List Bytes)
      (s : Snapshot) (sent : List ℕ) (t : st.State)
      → Saves
      → length s.chunk_hashes ≤ 1024
      → length sent ≤ length pre
      → s.chunk_hashes ≡ pre ++ map sha256 (c ∷ bytes_of l)
      → feed (some outcome) ((n, c) ∷ l) (restoring s (length pre) sent t)
        ≡ (ok (result_of st sha256 outcome), at_rest (saved (c ∷ bytes_of l) (length pre) s t))
  unfolding feed receive
  feed_lem outcome n c [] pre s sent t h fits le e =
      let count : length s.chunk_hashes ≡ length pre + 1 =
        ap length e ∙ length-append pre (sha256 c ∷ []) in
      restore_chunk-matches (some outcome) c s (length pre) (drop n sent) t h
        (ap (λ l. get_elem? l (length pre)) e ∙ get_elem?-append pre [] (sha256 c))
      ∙ pass_to-last outcome s (length pre) (drop n sent) _ h
          (omega (arith, count, length-drop n sent)) (omega arith) (omega (arith, count))
  feed_lem outcome n c ((n', d) ∷ l) pre s sent t h fits le e =
      let count : length s.chunk_hashes
          ≡ length pre + (suc (suc (length (map sha256 (bytes_of l))))) =
        ap length e ∙ length-append pre (map sha256 (c ∷ d ∷ bytes_of l)) in
      let t' = (st.save_chunk_content c (length pre) s t).1 in
      let longer : length (pre ++ (sha256 c ∷ [])) ≡ length pre + 1 =
        length-append pre (sha256 c ∷ []) in
      let waiting = drop n sent ++ length pre ∷ [] in
      ap (after_chunk (feed (some outcome) ((n', d) ∷ l))) (
        restore_chunk-matches (some outcome) c s (length pre) (drop n sent) t h (
          ap (λ l. get_elem? l (length pre)) e
          ∙ get_elem?-append pre (map sha256 (d ∷ bytes_of l)) (sha256 c))
        ∙ pass_to-more (some outcome) s (length pre) (drop n sent) t'
            (omega (arith, count, length-drop n sent)) (omega arith) (omega (arith, count)))
      ∙ subst
          (λ i.
            feed (some outcome) ((n', d) ∷ l) (restoring s i waiting t')
            ≡ (ok (result_of st sha256 outcome), at_rest (saved (d ∷ bytes_of l) i s t')))
          longer
          (feed_lem outcome n' d l (pre ++ (sha256 c ∷ [])) s waiting t' h fits
            (omega
              (arith, longer, length-drop n sent, length-append (drop n sent) (length pre ∷ [])))
            (e ∙ sym (append_assoc pre (sha256 c ∷ []) (map sha256 (d ∷ bytes_of l)))))

  restores :
      (s : Snapshot) (t : st.State)
      → Saves
      → check_snapshot st sha256 s ≡ none
      → restore st sha256 s (at_rest t) ≡ (none, restoring s 0 [] t)
  unfolding restore begin_locked start_restore
  restores s t h valid =
      ap (restore_checked st sha256 s (at_rest t)) valid
      ∙ ap (restore_begun st sha256 s (record (at_rest t) { operation = op_restore }))
          (h.makes_dir s t)

  result :
      (err : Option Error)
      → result_of st sha256 (done_of err)
        ≡ (elim err [ none ↦ (true, none) | some e ↦ (false, some e) ])
  result none = refl
  result (some e) = refl

  -- Restore of a snapshot of at most 1024 chunks that passes the checks begins on a manager at rest. If the store fails
  -- nowhere, the chunks have the hashes of the snapshot, and the restoration reports after the last chunk and not
  -- before, then no send blocks, whatever the loader has received before each chunk: all chunks but the last are taken
  -- with false and no error, and the last gives true if the restoration ended without an error, and else false and that
  -- error. All chunks and the snapshot are saved in order, and the manager is at rest again.
  pub feed-restore :
      (n : ℕ) (c : Bytes) (l : List (ℕ × Bytes)) (s : Snapshot) (t : st.State) (err : Option Error)
      → Saves
      → check_snapshot st sha256 s ≡ none
      → s.chunk_hashes ≡ map sha256 (c ∷ bytes_of l)
      → length s.chunk_hashes ≤ 1024
      → ((restore st sha256 s (at_rest t)).0 ≡ none)
        × (feed (some (done_of err)) ((n, c) ∷ l) (restore st sha256 s (at_rest t)).1 ≡ (
          ok (elim err [ none ↦ (true, none) | some e ↦ (false, some e) ]),
          at_rest (saved (c ∷ bytes_of l) 0 s t),
        ))
  feed-restore n c l s t err h valid e fits =
      let begins = restores s t h valid in
      (
        ap (λ x. x.0) begins,
        ap (λ x. feed (some (done_of err)) ((n, c) ∷ l) x.1) begins
            ∙ feed_lem (done_of err) n c l [] s [] t h fits (omega arith) e
            ∙ ap (λ r. (ok r, at_rest (saved (c ∷ bytes_of l) 0 s t))) (result err),
      )

  -- The manager that Restore leaves then.
  abbrev no_dir : st.State → Manager st sha256
  no_dir t = record (at_rest t) { operation = op_restore }

  refused :
      (s : Snapshot) (t : st.State) (e : Error)
      → check_snapshot st sha256 s ≡ none
      → st.make_dir s t ≡ some e
      → restore st sha256 s (at_rest t) ≡ (some e, no_dir t)
  unfolding restore begin_locked
  refused s t e valid fails =
      ap (restore_checked st sha256 s (at_rest t)) valid
      ∙ ap (restore_begun st sha256 s (no_dir t)) fails

  stuck :
      (outcome : Option RestoreDone) (c : Bytes) (t : st.State)
      → restore_chunk st sha256 outcome c (no_dir t) ≡ (panic nil_pointer, no_dir t)
  unfolding restore_chunk
  stuck outcome c t = refl

  begin_locked-on :
      (op : Operation) (t : st.State)
      → is_none_op op ≡ false
      → begin_locked st sha256 op (no_dir t) ≡ (some conflict, no_dir t)
  unfolding begin_locked
  begin_locked-on op t o = if-false (is_none_op op) _ _ o

  -- Where the directory of a snapshot that passes the checks cannot be made, Restore on a manager at rest returns that
  -- error but leaves the restoration on: RestoreChunk then dereferences nil, and every operation is refused.
  pub restore-make_dir :
      (s : Snapshot) (t : st.State) (e : Error) (outcome : Option RestoreDone) (c : Bytes)
      (op : Operation)
      → check_snapshot st sha256 s ≡ none
      → st.make_dir s t ≡ some e
      → is_none_op op ≡ false
      → (let (err, m) = restore st sha256 s (at_rest t) in
          (err ≡ some e)
          × (restore_chunk st sha256 outcome c m ≡ (panic nil_pointer, m))
          × (begin_locked st sha256 op m ≡ (some conflict, m)))
  restore-make_dir s t e outcome c op valid fails o =
      subst
        (λ (x : Option Error × Manager st sha256).
          (x.0 ≡ some e)
          × (restore_chunk st sha256 outcome c x.1 ≡ (panic nil_pointer, x.1))
          × (begin_locked st sha256 op x.1 ≡ (some conflict, x.1)))
        (sym (refused s t e valid fails)) (refl, stuck outcome c t, begin_locked-on op t o)
