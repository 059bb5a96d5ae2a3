-- ===== src/Pruning/Recovery.antt =====
-- The snapshot heights that pruning/manager.go writes to the database and loads again.
use melodiasdk_io_store.Prelude.{
  ℕ, zero, suc, ◌+◌, ◌*◌, ◌<◌, ◌≤◌, ◌≡◌, refl, sym, ap, subst, ◌∙◌, true, false, List, [], ◌∷◌,
  ◌++◌, Result, ok, panic, ◌>>=◌, arith, leb, length, length-append, drop,
}
use melodiasdk_io_store.Bytes.{Bytes}
use melodiasdk_io_store.Types.Utils.{big_endian, read_bytes}
use melodiasdk_io_store.Types.Utils.BigEndian.{read_bytes-big_endian, length-big_endian}
use melodiasdk_io_store.Pruning.Options.{is_nothing}
use melodiasdk_io_store.Pruning.Manager.{
  Db, Manager, two_63, signed_lt, int64_slice_to_bytes, load_heights, next_heights,
  handle_snapshot_height, prune_snapshot_heights_key, load_pruning_snapshot_heights, sort_heights,
  insert_height, drop_run, drop_runs,
}

-- Every height is in the range of a non-negative `int64`.
abbrev pub AllFit : List ℕ → Type 0
AllFit [] = Unit
AllFit (h ∷ l) = (h < two_63) × AllFit l

read_bytes-more :
    (n acc : ℕ) (a b : Bytes) → length a ≡ n → read_bytes n acc (a ++ b) ≡ read_bytes n acc a
unfolding read_bytes
read_bytes-more zero acc [] b h = refl
read_bytes-more zero acc (x ∷ a) b h = absurd (omega arith)
read_bytes-more (suc n) acc [] b h = absurd (omega arith)
read_bytes-more (suc n) acc (x ∷ a) b h = read_bytes-more n (acc * 256 + x) a b (omega arith)

drop-length : (a b : Bytes) (n : ℕ) → length a ≡ n → drop n (a ++ b) ≡ b
drop-length [] b zero h = refl
drop-length [] b (suc n) h = absurd (omega arith)
drop-length (x ∷ a) b zero h = absurd (omega arith)
drop-length (x ∷ a) b (suc n) h = drop-length a b n (omega arith)

load_heights-step :
    (f h : ℕ) (a b : Bytes)
    → length a ≡ 8
    → read_bytes 8 0 a ≡ ok h
    → h < two_63
    → load_heights (suc f) (a ++ b) ≡ (load_heights f b >>= λ rest. ok (h ∷ rest))
unfolding load_heights
load_heights-step f h [] b e r lt = absurd (omega arith)
load_heights-step f h (x ∷ a) b e r lt =
    let fits : leb two_63 h ≡ false = ground arith in
    rw (read_bytes-more 8 0 (x ∷ a) b e ∙ r, fits, drop-length (x ∷ a) b 8 e)

-- The heights are read back from their bytes.
pub load_heights-int64_slice_to_bytes :
    (l : List ℕ) (f : ℕ) → AllFit l → length l ≤ f → load_heights f (int64_slice_to_bytes l) ≡ ok l
unfolding int64_slice_to_bytes
load_heights-int64_slice_to_bytes [] f h le = unfold load_heights in refl
load_heights-int64_slice_to_bytes (x ∷ l) zero h le = absurd (omega arith)
load_heights-int64_slice_to_bytes (x ∷ l) (suc f) h le =
    load_heights-step f x (big_endian 8 x) (int64_slice_to_bytes l) (length-big_endian 8 x)
      (read_bytes-big_endian 8 x (omega (arith, h.0))) h.0
    ∙ ap (λ r. r >>= λ rest. ok (x ∷ rest))
        (load_heights-int64_slice_to_bytes l f h.1 (omega arith))

length-int64_slice_to_bytes : (l : List ℕ) → length l ≤ length (int64_slice_to_bytes l)
unfolding int64_slice_to_bytes
length-int64_slice_to_bytes [] = omega arith
length-int64_slice_to_bytes (x ∷ l) = omega (
  arith,
  length-append (big_endian 8 x) (int64_slice_to_bytes l),
  length-big_endian 8 x,
  length-int64_slice_to_bytes l,
)

insert_height-AllFit : (x : ℕ) (l : List ℕ) → x < two_63 → AllFit l → AllFit (insert_height x l)
unfolding insert_height
insert_height-AllFit x [] h a = (h, tt)
insert_height-AllFit x (y ∷ l) h a = ground (arith, insert_height-AllFit x l h a.1)

pub sort_heights-AllFit : (l : List ℕ) → AllFit l → AllFit (sort_heights l)
unfolding sort_heights
sort_heights-AllFit [] a = tt
sort_heights-AllFit (x ∷ l) a =
    insert_height-AllFit x (sort_heights l) a.0 (sort_heights-AllFit l a.1)

drop_run-AllFit : (n x : ℕ) (l : List ℕ) → x < two_63 → AllFit l → AllFit (drop_run n x l)
unfolding drop_run
drop_run-AllFit n x [] h a = (h, tt)
drop_run-AllFit n x (y ∷ l) h a = ground (arith, drop_run-AllFit n y l a.0 a.1)

drop_runs-AllFit : (n : ℕ) (l : List ℕ) → AllFit l → AllFit (drop_runs n l)
drop_runs-AllFit n [] a = tt
drop_runs-AllFit n (x ∷ l) a = drop_run-AllFit n x l a.0 a.1

pub AllFit-append : (l : List ℕ) (x : ℕ) → AllFit l → x < two_63 → AllFit (l ++ (x ∷ []))
AllFit-append [] x a h = (h, tt)
AllFit-append (y ∷ l) x a h = (a.0, AllFit-append l x a.1 h)

module _ (d : Db) where
  next_heights-AllFit :
      (m : Manager d) (height : ℕ)
      → AllFit m.prune_snapshot_heights
      → height < two_63
      → AllFit (next_heights d m height)
  unfolding next_heights
  next_heights-AllFit m height a h =
      drop_runs-AllFit m.snapshot_interval
        (sort_heights (m.prune_snapshot_heights ++ (height ∷ [])))
        (sort_heights-AllFit (m.prune_snapshot_heights ++ (height ∷ []))
          (AllFit-append m.prune_snapshot_heights height a h))

  load_pruning_snapshot_heights-written :
      (db db' : d.State) (l : List ℕ)
      → AllFit l
      → d.set_sync db prune_snapshot_heights_key (int64_slice_to_bytes l) ≡ ok db'
      → load_pruning_snapshot_heights d db' ≡ ok l
  unfolding load_pruning_snapshot_heights
  load_pruning_snapshot_heights-written db db' l a e =
      rw (d.get_set db db' prune_snapshot_heights_key (int64_slice_to_bytes l) e) (
        load_heights-int64_slice_to_bytes l (length (int64_slice_to_bytes l)) a
          (length-int64_slice_to_bytes l))

  -- The value of a result, or another one.
  abbrev ok_or : {A : Type 0} → A → Result A → A
  ok_or a (ok b) = b
  ok_or a (panic x) = a

  handle_snapshot_height-write :
      (m : Manager d) (height : ℕ)
      → is_nothing m.opts.strategy ≡ false
      → 0 < height
      → height < two_63
      → handle_snapshot_height d m height ≡ (
          d.set_sync m.db prune_snapshot_heights_key
            (int64_slice_to_bytes (next_heights d m height))
          >>= λ db. ok (record m { prune_snapshot_heights = next_heights d m height; db = db }))
  unfolding handle_snapshot_height
  handle_snapshot_height-write m height strategy pos fits =
      let positive : signed_lt 0 height ≡ true = ground arith in rw (strategy, positive)

  -- "persists the snapshot height": after `HandleSnapshotHeight` of a positive height has returned, loading
  -- from its database gives back the heights that it keeps, and these are in range again.
  pub load-handle_snapshot_height :
      (m m' : Manager d) (height : ℕ)
      → is_nothing m.opts.strategy ≡ false
      → 0 < height
      → height < two_63
      → AllFit m.prune_snapshot_heights
      → handle_snapshot_height d m height ≡ ok m'
      → AllFit m'.prune_snapshot_heights
        × (load_pruning_snapshot_heights d m'.db ≡ ok m'.prune_snapshot_heights)
        × (m'.prune_snapshot_heights ≡ next_heights d m height)
  load-handle_snapshot_height m m' height strategy pos fits a e =
      by_result
        (d.set_sync m.db prune_snapshot_heights_key
          (int64_slice_to_bytes (next_heights d m height)))
        refl (sym (handle_snapshot_height-write m height strategy pos fits) ∙ e)
    where
      by_result :
          (r : Result d.State)
          → d.set_sync m.db prune_snapshot_heights_key
              (int64_slice_to_bytes (next_heights d m height))
            ≡ r
          → (r >>= λ db.
              ok (record m { prune_snapshot_heights = next_heights d m height; db = db }))
            ≡ ok m'
          → AllFit m'.prune_snapshot_heights
            × (load_pruning_snapshot_heights d m'.db ≡ ok m'.prune_snapshot_heights)
            × (m'.prune_snapshot_heights ≡ next_heights d m height)
      by_result (panic x) q w = absurd (ground arith)
      by_result (ok db) q w =
          let fit = next_heights-AllFit m height a fits in
          subst
            (λ (n : Manager d).
              AllFit n.prune_snapshot_heights
              × (load_pruning_snapshot_heights d n.db ≡ ok n.prune_snapshot_heights)
              × (n.prune_snapshot_heights ≡ next_heights d m height))
            (ap (ok_or m') w)
            (
              fit,
              load_pruning_snapshot_heights-written m.db db (next_heights d m height) fit q,
              refl,
            )
