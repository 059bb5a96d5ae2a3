-- ===== src/MultiVersion/Interface.antt =====
-- multiversion/store.go, `MultiVersionStore`, as an interface with what a transaction relies on: reading
-- the latest earlier version of a key may prepare the store for the index, and changes no reading.
-- types/occ/types.go: aborts.
use melodiasdk_io_store.Prelude.{ℕ, ◌≡◌, Option, Result, if◌then◌else◌}
use melodiasdk_io_store.Bytes.{Bytes, bytes_eq}
use melodiasdk_io_store.MultiVersion.ValueItem.{ValueItem}
use melodiasdk_io_store.MultiVersion.Tracker.{WriteSet, ReadSet, Iterateset}

pub data AbortError : Type 0 where
  err_read_estimate err_next_account_number : AbortError

pub record Abort : Type 0 where
  pub dependent_tx_idx : ℕ
  pub err : AbortError

unfoldable pub new_estimate_abort : ℕ → Abort
new_estimate_abort dependent_tx_idx = record {
  dependent_tx_idx = dependent_tx_idx;
  err = err_read_estimate;
}

unfoldable pub new_err_next_account_number : ℕ → Abort
new_err_next_account_number dependent_tx_idx = record {
  dependent_tx_idx = dependent_tx_idx;
  err = err_next_account_number;
}

pub record MultiVersionStore : Type 1 where
  pub State : Type 0
  pub IsOk : State → Type 0
  pub latest_before : State → ℕ → Bytes → Option ValueItem
  pub latest_before_expansion : State → ℕ → Bytes → Option ValueItem × State
  pub new_key : State → Bytes → ℕ → State
  pub set_writeset : State → ℕ → ℕ → WriteSet → ℕ → Result State
  pub set_estimated_writeset : State → ℕ → ℕ → WriteSet → Result State
  pub set_readset : State → ℕ → ReadSet → Result State
  pub set_iterateset : State → ℕ → Iterateset → Result State
  pub expansion_lem :
      (s : State) (index : ℕ) (key : Bytes)
      → IsOk s
      → IsOk (latest_before_expansion s index key).1
        × ((j : Bytes)
            → latest_before (latest_before_expansion s index key).1 index j ≡ (
                if bytes_eq j key
                then (latest_before_expansion s index key).0
                else latest_before s index j))
        × ((j : Bytes)
            → (latest_before_expansion (latest_before_expansion s index key).1 index j).0
              ≡ (latest_before_expansion s index j).0)
