-- ===== src/Pruning/Snapshots.antt =====
-- The snapshot heights of pruning/manager.go: which of them HandleSnapshotHeight drops.
use mathlib.Core.List.{Perm}
use mathlib.Core.List.Perm
use melodiasdk_io_store.Prelude.{
  ℕ, ◌<◌, ◌≤◌, ◌≡◌, ◌≢◌, inl, inr, refl, sym, ap, ◌∙◌, true, false, List, [], ◌∷◌, ◌++◌, arith,
  ◌==◌, Bool-cases,
}
use melodiasdk_io_store.Pruning.Manager.{
  Db, Manager, two_63, signed_lt, add_int64, insert_height, sort_heights, drop_run, drop_runs,
  next_heights,
}
use melodiasdk_io_store.Pruning.Recovery.{AllFit, AllFit-append, sort_heights-AllFit}

abbrev pub IsLeast : ℕ → List ℕ → Type 0
IsLeast x [] = Unit
IsLeast x (y ∷ l) = (x ≤ y) × IsLeast x l

-- The first of the heights, or `h` if there is none.
abbrev pub first_of : List ℕ → ℕ → ℕ
first_of [] h = h
first_of (x ∷ l) h = x

-- Each of the heights, with `h` behind them, is followed by its next one.
abbrev pub IsRun : ℕ → List ℕ → ℕ → Type 0
IsRun interval [] h = Unit
IsRun interval (x ∷ l) h = (first_of l h ≡ add_int64 x interval) × IsRun interval l h

-- The list does not begin with the next height.
abbrev pub IsGap : ℕ → ℕ → List ℕ → Type 0
IsGap interval h [] = Unit
IsGap interval h (y ∷ t) = y ≢ add_int64 h interval

IsLeast-trans : (x y : ℕ) (l : List ℕ) → x ≤ y → IsLeast y l → IsLeast x l
IsLeast-trans x y [] h a = tt
IsLeast-trans x y (z ∷ l) h a = (omega (arith, a.0), IsLeast-trans x y l h a.1)

IsLeast-insert_height : (b x : ℕ) (l : List ℕ) → b ≤ x → IsLeast b l → IsLeast b (insert_height x l)
unfolding insert_height
IsLeast-insert_height b x [] h a = (h, tt)
IsLeast-insert_height b x (y ∷ l) h a = ground (arith, IsLeast-insert_height b x l h a.1)

-- The head is the least.
abbrev pub IsAscending : List ℕ → Type 0
IsAscending [] = Unit
IsAscending (x ∷ l) = IsLeast x l × IsAscending l

insert_height-IsAscending :
    (x : ℕ) (l : List ℕ) → x < two_63 → AllFit l → IsAscending l → IsAscending (insert_height x l)
unfolding insert_height
insert_height-IsAscending x [] h f a = (tt, tt)
insert_height-IsAscending x (y ∷ l) h f a = elim (Bool-cases (signed_lt y x)) [
  | inl e ↦
      let le : y ≤ x = lt_of_signed_lt y x f.0 h e in
      rw e (IsLeast-insert_height y x l le a.0, insert_height-IsAscending x l h f.1 a.1)
  | inr e ↦
      let le : x ≤ y = le_of_not-signed_lt y x f.0 h e in rw e ((le, IsLeast-trans x y l le a.0), a)
]
  where
    lt_of_signed_lt : (a b : ℕ) → a < two_63 → b < two_63 → signed_lt a b ≡ true → a ≤ b
    lt_of_signed_lt a b ha hb e = ground arith

    le_of_not-signed_lt : (a b : ℕ) → a < two_63 → b < two_63 → signed_lt a b ≡ false → b ≤ a
    le_of_not-signed_lt a b ha hb e = ground arith

sort_heights-IsAscending : (l : List ℕ) → AllFit l → IsAscending (sort_heights l)
unfolding sort_heights
sort_heights-IsAscending [] f = tt
sort_heights-IsAscending (x ∷ l) f =
    insert_height-IsAscending x (sort_heights l) f.0 (sort_heights-AllFit l f.1)
      (sort_heights-IsAscending l f.1)

insert_height-Perm : (x : ℕ) (l : List ℕ) → Perm (insert_height x l) (x ∷ l)
unfolding insert_height
insert_height-Perm x [] = Perm.refl (x ∷ [])
insert_height-Perm x (y ∷ l) = elim (Bool-cases (signed_lt y x)) [
  | inl e ↦ rw e (Perm.trans (Perm.cons y (insert_height-Perm x l)) (Perm.swap x y l))
  | inr e ↦ rw e (Perm.refl (x ∷ y ∷ l))
]

sort_heights-Perm : (l : List ℕ) → Perm (sort_heights l) l
unfolding sort_heights
sort_heights-Perm [] = Perm.refl []
sort_heights-Perm (x ∷ l) =
    Perm.trans (insert_height-Perm x (sort_heights l)) (Perm.cons x (sort_heights-Perm l))

-- The heights that are kept of `all`: in ascending order, less a run of next heights at the front that ends with the
-- first one kept, and none less after it.
pub record Keeps (interval : ℕ) (all next : List ℕ) : Type 0 where
  pub dropped : List ℕ
  pub height : ℕ
  pub rest : List ℕ
  pub kept : next ≡ height ∷ rest
  pub same : Perm (dropped ++ height ∷ rest) all
  pub ascending : IsAscending (dropped ++ height ∷ rest)
  pub run : IsRun interval dropped height
  pub gap : IsGap interval height rest

-- The loop on a list that is not empty.
record Drops (interval x : ℕ) (l : List ℕ) : Type 0 where
  dropped : List ℕ
  height : ℕ
  rest : List ℕ
  kept : drop_run interval x l ≡ height ∷ rest
  whole : dropped ++ height ∷ rest ≡ x ∷ l
  run : IsRun interval dropped height
  gap : IsGap interval height rest

first_of-whole : (d : List ℕ) (h x : ℕ) (t l : List ℕ) → d ++ h ∷ t ≡ x ∷ l → first_of d h ≡ x
first_of-whole [] h x t l e = ground arith
first_of-whole (y ∷ d) h x t l e = ground arith

drop_run-Drops : (i x : ℕ) (l : List ℕ) → Drops i x l
unfolding drop_run
drop_run-Drops i x [] = record {
  dropped = [];
  height = x;
  rest = [];
  kept = refl;
  whole = refl;
  run = tt;
  gap = tt;
}
drop_run-Drops i x (y ∷ l) = elim (Bool-cases (y == add_int64 x i)) [
  | inl e ↦
      let q = drop_run-Drops i y l in
      let next : y ≡ add_int64 x i = ground arith in
      record {
        dropped = x ∷ q.dropped;
        height = q.height;
        rest = q.rest;
        kept = rw e q.kept;
        whole = ap (λ m. x ∷ m) q.whole;
        run = (first_of-whole q.dropped q.height y q.rest l q.whole ∙ next, q.run);
        gap = q.gap;
      }
  | inr e ↦ record {
    dropped = [];
    height = x;
    rest = y ∷ l;
    kept = rw e refl;
    whole = refl;
    run = tt;
    gap = λ same. absurd (ground (arith, same, e));
  }
]

insert_height-cons : (x : ℕ) (l : List ℕ) → (y : ℕ) × (t : List ℕ) × (insert_height x l ≡ y ∷ t)
unfolding insert_height
insert_height-cons x [] = (x, [], refl)
insert_height-cons x (y ∷ l) = elim (Bool-cases (signed_lt y x)) [
  | inl e ↦ (y, insert_height x l, rw e refl)
  | inr e ↦ (x, y ∷ l, rw e refl)
]

sort_heights-cons :
    (l : List ℕ) (x : ℕ) → (y : ℕ) × (t : List ℕ) × (sort_heights (l ++ x ∷ []) ≡ y ∷ t)
unfolding sort_heights
sort_heights-cons [] x = insert_height-cons x []
sort_heights-cons (z ∷ l) x = insert_height-cons z (sort_heights (l ++ x ∷ []))

module _ (d : Db) where
  -- With a snapshot at one more height done, HandleSnapshotHeight puts the old heights and the new one in ascending
  -- order and drops, from the least on, each height that is directly followed by its next one, up to a height that
  -- is not; it and all heights behind it are kept.
  pub next_heights-Keeps :
      (m : Manager d) (height : ℕ)
      → AllFit m.prune_snapshot_heights
      → height < two_63
      → Keeps m.snapshot_interval
          (m.prune_snapshot_heights ++ (height ∷ []))
          (next_heights d m height)
  unfolding next_heights
  next_heights-Keeps m height f h =
      let all = m.prune_snapshot_heights ++ (height ∷ []) in
      let (x, l, e) = sort_heights-cons m.prune_snapshot_heights height in
      let q = drop_run-Drops m.snapshot_interval x l in
      let sorted : q.dropped ++ q.height ∷ q.rest ≡ sort_heights all = q.whole ∙ sym e in
      record {
        dropped = q.dropped;
        height = q.height;
        rest = q.rest;
        kept = ap (drop_runs m.snapshot_interval) e ∙ q.kept;
        same = rw sorted (sort_heights-Perm all);
        ascending =
            rw sorted
              (sort_heights-IsAscending all (AllFit-append m.prune_snapshot_heights height f h));
        run = q.run;
        gap = q.gap;
      }
