-- ===== src/Pruning/Options.antt =====
-- pruning/types/options.go: how many heights are kept and when the others are pruned.
use melodiasdk_io_store.Prelude.{ℕ, Bool, true, false, Option, none, some, ltb, ◌==◌, if◌then◌else◌}

pub data PruningStrategy : Type 0 where
  pruning_default pruning_everything pruning_nothing pruning_custom pruning_undefined :
      PruningStrategy

pub record PruningOptions : Type 0 where
  pub keep_recent : ℕ
  pub interval : ℕ
  pub strategy : PruningStrategy

abbrev pub is_nothing : PruningStrategy → Bool
is_nothing PruningStrategy.pruning_nothing = true
is_nothing _ = false

abbrev pub prune_everything_keep_recent : ℕ
prune_everything_keep_recent = 2

abbrev pub prune_everything_interval : ℕ
prune_everything_interval = 10

unfoldable pub new_custom_pruning_options : ℕ → ℕ → PruningOptions
new_custom_pruning_options keep_recent interval = record {
  keep_recent = keep_recent;
  interval = interval;
  strategy = PruningStrategy.pruning_custom;
}

unfoldable pub new_pruning_options : PruningStrategy → PruningOptions
new_pruning_options PruningStrategy.pruning_default = record {
  keep_recent = 362880;
  interval = 10;
  strategy = PruningStrategy.pruning_default;
}
new_pruning_options PruningStrategy.pruning_everything = record {
  keep_recent = prune_everything_keep_recent;
  interval = prune_everything_interval;
  strategy = PruningStrategy.pruning_everything;
}
new_pruning_options PruningStrategy.pruning_nothing = record {
  keep_recent = 0;
  interval = 0;
  strategy = PruningStrategy.pruning_nothing;
}
new_pruning_options PruningStrategy.pruning_custom = record {
  keep_recent = 0;
  interval = 0;
  strategy = PruningStrategy.pruning_custom;
}
new_pruning_options PruningStrategy.pruning_undefined = record {
  keep_recent = 0;
  interval = 0;
  strategy = PruningStrategy.pruning_custom;
}

pub data OptionsError : Type 0 where
  interval_zero interval_too_small keep_recent_too_small : OptionsError

-- `none` is a nil error.
unfoldable pub validate : PruningOptions → Option OptionsError
validate po =
    if is_nothing po.strategy
    then none
    else if po.interval == 0
    then some OptionsError.interval_zero
    else if ltb po.interval prune_everything_interval
    then some OptionsError.interval_too_small
    else if ltb po.keep_recent prune_everything_keep_recent
    then some OptionsError.keep_recent_too_small
    else none
