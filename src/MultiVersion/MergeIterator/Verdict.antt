-- ===== src/MultiVersion/MergeIterator/Verdict.antt =====
-- When the loop of validateIterator in multiversion/list_store.go finds an iteration valid.
use melodiasdk_io_store.Prelude.{
  ℕ, suc, ◌+◌, ◌<◌, ◌≤◌, ◌≡◌, ◌↔◌, ◌⊎◌, ◌∙◌, refl, sym, subst, inl, inr, Bool, true, List, [], ◌∷◌,
  some, ok, arith, length, Bool-cases, ◌==◌, Option-cases,
}
use melodiasdk_io_store.Bytes.{Bytes, Slice}
use melodiasdk_io_store.Bytes.Order.{direction, compare_bytes_eq, compare_bytes_refl}
use melodiasdk_io_store.Method.{Method}
use melodiasdk_io_store.SyncMap.{load}
use melodiasdk_io_store.Sorted.{IsSorted}
use melodiasdk_io_store.Iterator.{Iter, IsNonNil}
use melodiasdk_io_store.Types.KvStore.{or_empty}
use melodiasdk_io_store.CacheKv.Merge.Collect.{IsMerged}
use melodiasdk_io_store.MultiVersion.Tracker.{IterationTracker}
use melodiasdk_io_store.MultiVersion.MergeIterator.Simulation.{filled, AllFit, IsSteady}
use melodiasdk_io_store.MultiVersion.MergeIterator.Iterate.{Agrees}
use melodiasdk_io_store.MultiVersion.MergeIterator.Check.{
  is_expected, is_stop, found_all, check_rows, check_loop, check_loop-rows,
}

-- The tracker has visited the key.
abbrev pub WasVisited : IterationTracker → Bytes → Type 0
WasVisited tr k = load k tr.iterated_keys ≡ some tt

-- The tracker stopped at the key.
abbrev pub IsLast : IterationTracker → Bytes → Type 0
IsLast tr k = k ≡ or_empty tr.early_stop_key

-- Up to the key at which the tracker stopped, or to the end, there are `n` rows, each of a key that it visited.
abbrev pub Repeats : IterationTracker → Iter → ℕ → Type 0
Repeats tr [] n = n ≡ 0
Repeats tr ((k, v) ∷ r) n =
    WasVisited tr k
    × ((IsLast tr k × (n ≡ 1)) ⊎ (¬ IsLast tr k × ((i : ℕ) × (n ≡ suc i) × Repeats tr r i)))

is_expected_lem : (tr : IterationTracker) (k : Bytes) → (is_expected tr k ≡ true) ↔ WasVisited tr k
is_expected_lem tr k = elim (Option-cases (load k tr.iterated_keys)) [
  | inl e ↦ ground (arith, e)
  | inr (tt, e) ↦ ground (arith, e)
]

is_stop_lem : (tr : IterationTracker) (k : Bytes) → (is_stop tr k ≡ true) ↔ IsLast tr k
is_stop_lem tr k = (
  λ h. compare_bytes_eq k (or_empty tr.early_stop_key) (ground (arith, h)),
  λ h. rw h (rw (compare_bytes_refl (or_empty tr.early_stop_key)) refl),
)

Repeats-suc :
    (tr : IterationTracker) (k : Bytes) (v : Slice) (r : Iter) (n : ℕ)
    → Repeats tr ((k, v) ∷ r) n
    → (i : ℕ) × (n ≡ suc i)
Repeats-suc tr k v r n (seen, inl (last, one)) = (0, one)
Repeats-suc tr k v r n (seen, inr (on, (i, q, rep))) = (i, q)

check_rows_lem :
    (tr : IterationTracker) (found : ℕ) (r : Iter)
    → found ≤ length tr.iterated_keys
    → (check_rows tr found r ≡ true)
      ↔ ((n : ℕ) × Repeats tr r n × (found + n ≡ length tr.iterated_keys))
unfolding check_rows
check_rows_lem tr found [] le =
    (λ h. (0, refl, ground (arith, h)), λ h. let (n, z, e) = h in ground (arith, z, e, le))
check_rows_lem tr found ((k, v) ∷ r) le = elim (Bool-cases (length tr.iterated_keys == found)) [
  | inl full ↦ (
    λ h. absurd (ground (arith, h, full)),
    λ h.
        let (n, rep, e) = h in
        let (i, q) = Repeats-suc tr k v r n rep in absurd (ground (arith, full, e, q)),
  )
  | inr more ↦ elim (Bool-cases (is_expected tr k)) [
    | inr strange ↦ (
      λ h. absurd (ground (arith, h, more, strange)),
      λ h. absurd (ground (arith, (is_expected_lem tr k).1 h.1.0, strange)),
    )
    | inl known ↦ elim (Bool-cases (is_stop tr k)) [
      | inl stops ↦ (
        λ h.
            let all : found_all tr (suc found) ≡ true = sym (rw (more, known, stops) refl) ∙ h in
            (
              1,
              ((is_expected_lem tr k).0 known, inl ((is_stop_lem tr k).0 stops, refl)),
              ground (arith, all, more, le),
            ),
        λ h.
            let (n, rep, e) = h in
            elim rep.1 [
              | inl (last, one) ↦ rw (more, known, stops) (ground (arith, e, one))
              | inr (on, rest) ↦ absurd (on ((is_stop_lem tr k).0 stops))
            ],
      )
      | inr goes ↦ (
        λ h.
            let next : check_rows tr (suc found) r ≡ true = sym (rw (more, known, goes) refl) ∙ h in
            let (n, rep, e) = (check_rows_lem tr (suc found) r (ground (arith, more, le))).0 next in
            (
              suc n,
              (
                (is_expected_lem tr k).0 known,
                inr (
                  λ last. absurd (ground (arith, (is_stop_lem tr k).1 last, goes)),
                  (n, refl, rep),
                ),
              ),
              omega (arith, e),
            ),
        λ h.
            let (n, rep, e) = h in
            elim rep.1 [
              | inl (last, one) ↦ absurd (ground (arith, (is_stop_lem tr k).1 last, goes))
              | inr (on, (i, q, rest)) ↦
                  rw (more, known, goes)
                    ((check_rows_lem tr (suc found) r (ground (arith, more, le))).1
                      (i, rest, omega (arith, e, q)))
            ],
      )
    ]
  ]
]

module _ (S : Type 0) (read : Bytes → Method S Slice) (note : Bytes → Slice → S → S)
    (Keeps : S → Type 0) (Fits : Bytes → Type 0) (view : Bytes → Slice)
    (steady : IsSteady S read note Keeps Fits view) where
  -- On a merge as in `mvs_iteration` the loop of validateIterator ends within its fuel and without a panic. Its answer is
  -- true exactly where the merged rows, up to the key at which the tracker stopped or else to their end, are of keys
  -- that the tracker visited, and as many as it visited.
  pub check_loop_lem :
      (f : ℕ) (tr : IterationTracker) (asc : Bool) (p : Iter) (c : List Bytes) (s : S)
      → length p + length c < f
      → IsSorted (direction asc) p
      → IsSorted (direction asc) (filled view c)
      → IsNonNil p
      → AllFit Fits c
      → Agrees Fits view asc p (filled view c)
      → Keeps s
      → (r : Iter) × (b : Bool) × (s' : S) × (check_loop S read note f tr 0
            (record { parent = p; cache = c; ascending = asc })
            s
          ≡ (ok b, s'))
        × IsMerged asc p (filled view c) r
        × ((b ≡ true) ↔ Repeats tr r (length tr.iterated_keys))
  check_loop_lem f tr asc p c s lt sp sc n h a keep =
      let (r, s', e, merged) =
        check_loop-rows S read note Keeps Fits view steady f tr 0 asc p c s lt sp sc n h a keep in
      (r, check_rows tr 0 r, s', e, merged, from_0 r)
    where
      from_0 : (r : Iter) → (check_rows tr 0 r ≡ true) ↔ Repeats tr r (length tr.iterated_keys)
      from_0 r = (
        λ h.
            let (n, rep, e) = (check_rows_lem tr 0 r (omega arith)).0 h in
            subst (Repeats tr r) (omega (arith, e)) rep,
        λ rep. (check_rows_lem tr 0 r (omega arith)).1 (length tr.iterated_keys, rep, omega arith),
      )
