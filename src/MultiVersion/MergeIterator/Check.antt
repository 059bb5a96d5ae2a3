-- ===== src/MultiVersion/MergeIterator/Check.antt =====
-- The loop of validateIterator in multiversion/list_store.go and store.go: whether an iteration visits the keys that an
-- iteration tracker has.
use melodiasdk_io_store.Prelude.{
  ℕ, zero, suc, ◌+◌, ◌<◌, ◌≡◌, subst, inl, inr, Bool, true, false, List, [], ◌∷◌, some, ok, arith,
  length, Bool-cases, if◌then◌else◌, is_some, not, ltb, ◌==◌, no_fuel,
}
use melodiasdk_io_store.Bytes.{Bytes, Slice, bytes_eq}
use melodiasdk_io_store.Bytes.Order.{direction}
use melodiasdk_io_store.Method.{Method, pure, raise, ◌>>=◌}
use melodiasdk_io_store.SyncMap.{load}
use melodiasdk_io_store.Sorted.{IsSorted}
use melodiasdk_io_store.Iterator.{Iter, IsNonNil}
use melodiasdk_io_store.Types.KvStore.{or_empty}
use melodiasdk_io_store.CacheKv.Merge.Settle.{IsSettled}
use melodiasdk_io_store.CacheKv.Merge.Collect.{
  IsMerged, IsStep, step_lem, IsMerged-step, IsMerged-of-Settles, IsMerged-end,
}
use melodiasdk_io_store.MultiVersion.Tracker.{IterationTracker}
use melodiasdk_io_store.MultiVersion.MergeIterator.{
  MvsMergeIterator, skip_until_exists_or_invalid, next, key,
}
use melodiasdk_io_store.MultiVersion.MergeIterator.Simulation.{
  filled, length-filled, AllFit, IsSteady,
}
use melodiasdk_io_store.MultiVersion.MergeIterator.Iterate.{
  Agrees, Agrees-Settles, Agrees-IsStep, valid_lem, key_step, next_step,
}

-- `!((len(expectedKeys) - foundKeys) > 0)`
abbrev pub found_all : IterationTracker → ℕ → Bool
found_all tracker found = not (ltb found (length tracker.iterated_keys))

abbrev pub is_expected : IterationTracker → Bytes → Bool
is_expected tracker k = is_some (load k tracker.iterated_keys)

-- `bytes.Equal`, for which nil is empty.
abbrev pub is_stop : IterationTracker → Bytes → Bool
is_stop tracker k = bytes_eq k (or_empty tracker.early_stop_key)

-- What the loop finds on the rows of an iteration.
unfoldable pub check_rows : IterationTracker → ℕ → Iter → Bool
check_rows tracker found [] = found_all tracker found
check_rows tracker found ((k, v) ∷ r) =
    let rest = check_rows tracker (suc found) r in
    if length tracker.iterated_keys == found
    then false
    else if not (is_expected tracker k)
    then false
    else if is_stop tracker k
    then found_all tracker (suc found)
    else rest

module _ (S : Type 0) (read : Bytes → Method S Slice) (note : Bytes → Slice → S → S) where
  unfoldable pub check_loop : ℕ → IterationTracker → ℕ → MvsMergeIterator → Method S Bool
  check_loop zero tracker found it = raise no_fuel
  check_loop (suc f) tracker found it =
      let rest = check_loop f tracker (suc found) in
      skip_until_exists_or_invalid S read note it >>= λ r.
      if r.0
      then (if length tracker.iterated_keys == found
          then pure false
          else (key S read note r.1 >>= λ x.
              if not (is_expected tracker x.0)
              then pure false
              else if is_stop tracker x.0
              then pure (found_all tracker (suc found))
              else (next S read note x.1 >>= λ it'. rest it')))
      else pure (found_all tracker found)

module _ (S : Type 0) (read : Bytes → Method S Slice) (note : Bytes → Slice → S → S)
    (Keeps : S → Type 0) (Fits : Bytes → Type 0) (view : Bytes → Slice)
    (steady : IsSteady S read note Keeps Fits view) where
  abbrev there : Bool → Iter → List Bytes → MvsMergeIterator
  there asc p c = record { parent = p; cache = c; ascending = asc }

  check_step :
      (f : ℕ) (tr : IterationTracker) (found : ℕ) (asc v : Bool) (p q : Iter) (c d : List Bytes)
      (s s0 : S) (k : Bytes) (w : Slice) (p' : Iter) (c' : List Bytes) (s1 s3 s4 : S) (r : Iter)
      → skip_until_exists_or_invalid S read note (there asc p c) s ≡ (ok (v, there asc q d), s0)
      → v ≡ true
      → key S read note (there asc q d) s0 ≡ (ok (k, there asc q d), s1)
      → next S read note (there asc q d) s1 ≡ (ok (there asc p' c'), s3)
      → check_loop S read note f tr (suc found) (there asc p' c') s3
        ≡ (ok (check_rows tr (suc found) r), s4)
      → (s' : S) × (check_loop S read note (suc f) tr found (there asc p c) s
          ≡ (ok (check_rows tr found ((k, w) ∷ r)), s'))
  unfolding check_loop check_rows
  check_step f tr found asc v p q c d s s0 k w p' c' s1 s3 s4 r ev on ek en er =
      elim (Bool-cases (length tr.iterated_keys == found)) [
        | inl full ↦ (s0, rw (ev, on, full))
        | inr more ↦ elim (Bool-cases (is_expected tr k)) [
          | inr strange ↦ (s1, rw (ev, on, more, ek, strange))
          | inl known ↦ elim (Bool-cases (is_stop tr k)) [
            | inl stops ↦ (s1, rw (ev, on, more, ek, known, stops))
            | inr goes ↦ (s4, rw (ev, on, more, ek, known, goes, en, er))
          ]
        ]
      ]

  check_end :
      (f : ℕ) (tr : IterationTracker) (found : ℕ) (asc v : Bool) (p q : Iter) (c d : List Bytes)
      (s s0 : S)
      → skip_until_exists_or_invalid S read note (there asc p c) s ≡ (ok (v, there asc q d), s0)
      → v ≡ false
      → check_loop S read note (suc f) tr found (there asc p c) s
        ≡ (ok (check_rows tr found []), s0)
  unfolding check_loop check_rows
  check_end f tr found asc v p q c d s s0 ev off = rw (ev, off)

  -- On a merge as in `mvs_iteration` the loop of validateIterator ends within its fuel and without a panic, and finds
  -- what it finds on the rows that the merge shows.
  pub check_loop-rows :
      (f : ℕ) (tr : IterationTracker) (found : ℕ) (asc : Bool) (p : Iter) (c : List Bytes) (s : S)
      → length p + length c < f
      → IsSorted (direction asc) p
      → IsSorted (direction asc) (filled view c)
      → IsNonNil p
      → AllFit Fits c
      → Agrees Fits view asc p (filled view c)
      → Keeps s
      → (r : Iter) × (s' : S) × (check_loop S read note f tr found
            (record { parent = p; cache = c; ascending = asc })
            s
          ≡ (ok (check_rows tr found r), s'))
        × IsMerged asc p (filled view c) r
  check_loop-rows zero tr found asc p c s lt sp sc n h a keep = absurd (omega arith)
  check_loop-rows (suc f) tr found asc p c s lt sp sc n h a keep =
      let (v, t) = valid_lem S read note Keeps Fits view steady asc p c s sp sc h keep in
      let d = filled view v.keys in
      elim (Bool-cases v.valid) [
        | inl on ↦
            let settled = subst (λ b. IsSettled asc b v.parent d) on t.settled in
            let (k, w, p1, d1, step) =
              step_lem asc v.parent d settled t.sorted_p t.sorted_c (t.non_nil n) in
            let agrees = Agrees-Settles Fits view asc v.valid p (filled view c) v.parent d a t in
            let (s1, ek, keep1) =
              key_step S read note Keeps Fits view steady asc v.parent v.keys k w p1 d1 settled
                v.fit step v.state v.keeps in
            let (s3, c1, en, same, fit, keep3) =
              next_step S read note Keeps Fits view steady asc v.parent v.keys k w p1 d1 settled
                v.fit step s1 keep1 in
            let step' = subst (λ x. IsStep asc v.parent d k w p1 x) same step in
            let (r, s4, er, m) =
              check_loop-rows f tr (suc found) asc p1 c1 s3
                (omega (
                  arith,
                  step'.le,
                  t.le_p,
                  t.le_c,
                  length-filled view c1,
                  length-filled view c,
                  length-filled view v.keys,
                ))
                step'.sorted_p step'.sorted_c step'.non_nil fit
                (Agrees-IsStep Fits view asc v.parent d p1 (filled view c1) k w agrees step')
                keep3 in
            let (s5, e) =
              check_step f tr found asc v.valid p v.parent c v.keys s v.state k (some w) p1 c1 s1 s3
                s4 r v.runs on ek en er in
            ((k, some w) ∷ r, s5, e, IsMerged-of-Settles asc t (IsMerged-step asc {r = r} step' m))
        | inr off ↦ (
          [],
          v.state,
          check_end f tr found asc v.valid p v.parent c v.keys s v.state v.runs off,
          IsMerged-of-Settles asc t
              (IsMerged-end asc v.parent d (subst (λ b. IsSettled asc b v.parent d) off t.settled)),
        )
      ]
