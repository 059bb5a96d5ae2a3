-- ===== src/Pruning/Heights.antt =====
-- Which heights pruning/manager.go lets go.
use melodiasdk_io_store.Prelude.{
  ℕ, ◌+◌, ◌-◌, ◌%◌, ◌<◌, ◌≤◌, ◌≡◌, ◌⊎◌, inl, inr, refl, sym, ap, subst, ◌∙◌, Bool, true, false,
  List, ◌∷◌, arith, ltb, ◌==◌, ◌||◌, not, if◌then◌else◌, Bool-cases,
}
use melodiasdk_io_store.Pruning.Options.{is_nothing}
use melodiasdk_io_store.Pruning.Manager.{
  Db, Manager, two_63, signed_lt, add_int64, sub_int64, abs_int64, bounded_height,
  get_pruning_height,
}

signed_lt-below : (a b : ℕ) → a < two_63 → b < two_63 → signed_lt a b ≡ ltb a b
signed_lt-below a b ha hb = ground arith

add_int64-below : (a b : ℕ) → a + b < two_63 → add_int64 a b ≡ a + b
add_int64-below a b h = omega arith

sub_int64-below : (a b : ℕ) → a < two_63 → b ≤ a → sub_int64 a b ≡ a - b
sub_int64-below a b h h' = omega arith

second_test : (a b : Bool) → (a || not b) ≡ false → b ≡ true
second_test true b h = absurd (ground arith)
second_test false true h = refl
second_test false false h = absurd (ground arith)

module _ (d : Db) where
  -- The height, the number of heights to keep, and the next snapshot after the first of the snapshot
  -- heights are within the range of `int64`.
  pub record IsBounded (m : Manager d) (height h : ℕ) : Type 0 where
    pub height_fits : height < two_63
    pub keep_recent_fits : m.opts.keep_recent < two_63
    pub next_fits : h + m.snapshot_interval < two_63

  -- What may be pruned at a height: nothing, or up to a height that leaves the recent ones and, with
  -- snapshots, all from the next snapshot on; and one more would not.
  pub data Prunes (m : Manager d) (height h r : ℕ) : Type 0 where
    nothing : r ≡ 0 → Prunes m height h r
    up_to_recent :
        r + 1 + m.opts.keep_recent ≡ height
        → ((m.snapshot_interval ≡ 0) ⊎ (r < h + m.snapshot_interval))
        → Prunes m height h r
    up_to_snapshot :
        r + 1 ≡ h + m.snapshot_interval
        → r + m.opts.keep_recent < height
        → 0 < m.snapshot_interval
        → Prunes m height h r

  Prunes-next :
      (m : Manager d) (height h : ℕ)
      → IsBounded m height h
      → 0 < m.snapshot_interval
      → m.opts.keep_recent < height
      → (let sn = h + m.snapshot_interval - 1 in
          let r = height - 1 - m.opts.keep_recent in
          Prunes m height h (if signed_lt sn r then sn else r))
  Prunes-next m height h b pos lt =
      let sn = h + m.snapshot_interval - 1 in
      let r = height - 1 - m.opts.keep_recent in
      let same : signed_lt sn r ≡ ltb sn r =
        signed_lt-below sn r (omega (arith, b.next_fits)) (omega (arith, b.height_fits)) in
      elim (Bool-cases (ltb sn r)) [
        | inl t ↦ rw (same, t) (up_to_snapshot (omega arith) (ground arith) pos)
        | inr t ↦ rw (same, t) (up_to_recent (omega arith) (inr (ground arith)))
      ]

  bounded_height-next :
      (m : Manager d) (h r : ℕ) (l : List ℕ)
      → h + m.snapshot_interval < two_63
      → m.prune_snapshot_heights ≡ h ∷ l
      → 0 < m.snapshot_interval
      → (let sn = h + m.snapshot_interval - 1 in
          bounded_height d m r ≡ (if signed_lt sn r then sn else r))
  unfolding bounded_height
  bounded_height-next m h r l fits e pos =
      let nz : m.snapshot_interval == 0 ≡ false = ground arith in
      let next : sub_int64 (add_int64 h m.snapshot_interval) 1 ≡ h + m.snapshot_interval - 1 =
        omega arith in
      rw (nz, e, next)

  bounded_height-all : (m : Manager d) (r : ℕ) → m.snapshot_interval ≡ 0 → bounded_height d m r ≡ r
  unfolding bounded_height
  bounded_height-all m r z = rw z

  Prunes-bounded_height :
      (m : Manager d) (height h : ℕ) (l : List ℕ)
      → IsBounded m height h
      → m.prune_snapshot_heights ≡ h ∷ l
      → m.opts.keep_recent < height
      → Prunes m height h (bounded_height d m (height - 1 - m.opts.keep_recent))
  Prunes-bounded_height m height h l b e lt =
      let r = height - 1 - m.opts.keep_recent in
      let Shown : ℕ → Type 0 = λ n. Prunes m height h n in
      elim (Bool-cases (m.snapshot_interval == 0)) [
        | inl z ↦
            let off : m.snapshot_interval ≡ 0 = ground arith in
            subst Shown (sym (bounded_height-all m r off)) (up_to_recent (omega arith) (inl off))
        | inr nz ↦
            let pos : 0 < m.snapshot_interval = ground arith in
            subst Shown (sym (bounded_height-next m h r l b.next_fits e pos))
              (Prunes-next m height h b pos lt)
      ]

  -- With snapshot heights, within the bounds, `GetPruningHeight` gives 0, or a height that leaves the recent
  -- heights and, with snapshots, all from the next snapshot on; it is the greatest such height.
  pub get_pruning_height-Prunes :
      (m : Manager d) (height h : ℕ) (l : List ℕ)
      → IsBounded m height h
      → m.prune_snapshot_heights ≡ h ∷ l
      → Prunes m height h (get_pruning_height d m height)
  unfolding get_pruning_height
  get_pruning_height-Prunes m height h l b e =
      elim (Bool-cases (is_nothing m.opts.strategy || m.opts.interval == 0)) [
        | inl off ↦ rw off (nothing refl)
        | inr on ↦
            let skip =
              not (abs_int64 height % abs_int64 m.opts.interval == 0)
              || not (signed_lt m.opts.keep_recent height) in
            elim (Bool-cases skip) [
              | inl t ↦ rw (on, t) (nothing refl)
              | inr f ↦ rw (on, f) (with_room f)
            ]
      ]
    where
      with_room :
          (not (abs_int64 height % abs_int64 m.opts.interval == 0)
              || not (signed_lt m.opts.keep_recent height))
            ≡ false
          → Prunes m height h
              (bounded_height d m (sub_int64 (sub_int64 height 1) m.opts.keep_recent))
      with_room f =
          let less : ltb m.opts.keep_recent height ≡ true =
            sym (signed_lt-below m.opts.keep_recent height b.keep_recent_fits b.height_fits)
            ∙ second_test (not (abs_int64 height % abs_int64 m.opts.interval == 0))
                (signed_lt m.opts.keep_recent height) f in
          let lt : m.opts.keep_recent < height = ground arith in
          let one : sub_int64 height 1 ≡ height - 1 =
            sub_int64-below height 1 b.height_fits (omega arith) in
          let both : sub_int64 (height - 1) m.opts.keep_recent ≡ height - 1 - m.opts.keep_recent =
            sub_int64-below (height - 1) m.opts.keep_recent (omega (arith, b.height_fits))
              (omega arith) in
          subst (λ r. Prunes m height h (bounded_height d m r))
            (sym (ap (λ x. sub_int64 x m.opts.keep_recent) one ∙ both))
            (Prunes-bounded_height m height h l b e lt)
