-- ===== src/Pruning/Manager.antt =====
-- pruning/manager.go: the heights whose snapshots are done, and the height up to which may be pruned. The
-- database is a parameter; locks and logging are left out.
use melodiasdk_io_store.Prelude.{
  ℕ, zero, suc, ◌+◌, ◌-◌, ◌%◌, ◌≡◌, Bool, List, [], ◌∷◌, ◌++◌, none, some, Result, ok, panic, ◌>>=◌,
  ◌>>◌, length, drop, ltb, leb, ◌==◌, ◌||◌, not, if◌then◌else◌, guard, no_fuel, negative_height,
}
use melodiasdk_io_store.Bytes.{Bytes, Slice}
use melodiasdk_io_store.Types.Gas.{two_64}
use melodiasdk_io_store.Types.Utils.{big_endian, read_bytes}
use melodiasdk_io_store.Pruning.Options.{
  PruningOptions, PruningStrategy, is_nothing, new_pruning_options,
}

-- dbm.DB of github.com/cosmos/cosmos-db, as far as the manager uses it. What was written is read back.
pub record Db : Type 1 where
  pub State : Type 0
  pub get : State → Bytes → Result Slice
  pub set_sync : State → Bytes → Bytes → Result State
  pub get_set : (d d' : State) (k v : Bytes) → set_sync d k v ≡ ok d' → get d' k ≡ ok (some v)

abbrev pub two_63 : ℕ
two_63 = 9223372036854775808

-- `a < b` of `int64`.
abbrev pub signed_lt : ℕ → ℕ → Bool
signed_lt a b = ltb ((a + two_63) % two_64) ((b + two_63) % two_64)

abbrev pub add_int64 : ℕ → ℕ → ℕ
add_int64 a b = (a + b) % two_64

abbrev pub sub_int64 : ℕ → ℕ → ℕ
sub_int64 a b = (a + (two_64 - b)) % two_64

-- The absolute value, of which the remainder is zero exactly if that of the number is.
abbrev pub abs_int64 : ℕ → ℕ
abs_int64 a = if ltb a two_63 then a else two_64 - a

unfoldable pub insert_height : ℕ → List ℕ → List ℕ
insert_height x [] = x ∷ []
insert_height x (y ∷ l) =
    let rest = insert_height x l in if signed_lt y x then y ∷ rest else x ∷ y ∷ l

-- `sort.Slice`
unfoldable pub sort_heights : List ℕ → List ℕ
unfolding insert_height
sort_heights [] = []
sort_heights (x ∷ l) = insert_height x (sort_heights l)

-- The loop over `k`, which drops each height that the next snapshot follows, behind the height before it.
unfoldable pub drop_run : ℕ → ℕ → List ℕ → List ℕ
drop_run interval x [] = x ∷ []
drop_run interval x (y ∷ l) =
    let rest = drop_run interval y l in if y == add_int64 x interval then rest else x ∷ y ∷ l

abbrev pub drop_runs : ℕ → List ℕ → List ℕ
drop_runs interval [] = []
drop_runs interval (x ∷ l) = drop_run interval x l

unfoldable pub int64_slice_to_bytes : List ℕ → Bytes
unfolding big_endian
int64_slice_to_bytes [] = []
int64_slice_to_bytes (ph ∷ l) = big_endian 8 ph ++ int64_slice_to_bytes l

-- The loop over `offset`, on the bytes that are left.
unfoldable pub load_heights : ℕ → Bytes → Result (List ℕ)
unfolding read_bytes
load_heights f [] = ok []
load_heights zero (x ∷ b) = panic no_fuel
load_heights (suc f) (x ∷ b) = do
  h ← read_bytes 8 0 (x ∷ b)
  guard (leb two_63 h) negative_height
  rest ← load_heights f (drop 8 (x ∷ b))
  ok (h ∷ rest)

abbrev pub or_no_bytes : Slice → Bytes
or_no_bytes none = []
or_no_bytes (some b) = b

-- "s/prunesnapshotheights"
abbrev pub prune_snapshot_heights_key : Bytes
prune_snapshot_heights_key =
    115 ∷ 47 ∷ 112 ∷ 114 ∷ 117 ∷ 110 ∷ 101 ∷ 115 ∷ 110 ∷ 97 ∷ 112 ∷ 115 ∷ 104 ∷ 111 ∷ 116 ∷ 104
    ∷ 101 ∷ 105 ∷ 103 ∷ 104 ∷ 116 ∷ 115 ∷ []

module _ (d : Db) where
  pub record Manager : Type 0 where
    pub db : d.State
    pub opts : PruningOptions
    pub snapshot_interval : ℕ
    pub prune_snapshot_heights : List ℕ

  unfoldable pub new_manager : d.State → Manager
  new_manager db = record {
    db = db;
    opts = new_pruning_options PruningStrategy.pruning_nothing;
    snapshot_interval = 0;
    prune_snapshot_heights = 0 ∷ [];
  }

  unfoldable pub set_options : PruningOptions → Manager → Manager
  set_options opts m = record m { opts = opts }

  unfoldable pub set_snapshot_interval : ℕ → Manager → Manager
  set_snapshot_interval n m = record m { snapshot_interval = n }

  -- The heights after a snapshot at a height is done.
  unfoldable pub next_heights : Manager → ℕ → List ℕ
  next_heights m height =
      drop_runs m.snapshot_interval (sort_heights (m.prune_snapshot_heights ++ (height ∷ [])))

  unfoldable pub handle_snapshot_height : Manager → ℕ → Result Manager
  unfolding next_heights
  handle_snapshot_height m height =
      if is_nothing m.opts.strategy || not (signed_lt 0 height) then ok m else do
        let heights = next_heights m height
        db ← d.set_sync m.db prune_snapshot_heights_key (int64_slice_to_bytes heights)
        ok (record m { prune_snapshot_heights = heights; db = db })

  -- What follows the tests of the options: the height to prune up to, bounded by the snapshots.
  unfoldable pub bounded_height : Manager → ℕ → ℕ
  bounded_height m prune_height =
      if m.snapshot_interval == 0 then prune_height else elim m.prune_snapshot_heights [
        | [] ↦ 0
        | h ∷ l ↦
            let sn_height = sub_int64 (add_int64 h m.snapshot_interval) 1 in
            if signed_lt sn_height prune_height then sn_height else prune_height
      ]

  unfoldable pub get_pruning_height : Manager → ℕ → ℕ
  unfolding bounded_height
  get_pruning_height m height =
      if is_nothing m.opts.strategy || m.opts.interval == 0
      then 0
      else if not (abs_int64 height % abs_int64 m.opts.interval == 0)
          || not (signed_lt m.opts.keep_recent height)
      then 0
      else bounded_height m (sub_int64 (sub_int64 height 1) m.opts.keep_recent)

  unfoldable pub load_pruning_snapshot_heights : d.State → Result (List ℕ)
  load_pruning_snapshot_heights db = do
    bz ← d.get db prune_snapshot_heights_key
    load_heights (length (or_no_bytes bz)) (or_no_bytes bz)

  -- Loaded heights are taken over where there are any.
  abbrev pub take_over : Manager → List ℕ → Manager
  take_over m [] = m
  take_over m (h ∷ l) = record m { prune_snapshot_heights = h ∷ l }

  unfoldable pub load_snapshot_heights : Manager → d.State → Result Manager
  load_snapshot_heights m db =
      if is_nothing m.opts.strategy
      then ok m
      else do heights ← load_pruning_snapshot_heights db; ok (take_over m heights)
