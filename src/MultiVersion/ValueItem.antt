-- ===== src/MultiVersion/ValueItem.antt =====
-- multiversion/data_structures.go: one version of a key. `none` is a nil value.
use melodiasdk_io_store.Prelude.{ℕ, Bool, true, false, none, is_some, not, ◌&&◌, ltb}
use melodiasdk_io_store.Bytes.{Slice}

pub record ValueItem : Type 0 where
  pub index : ℕ
  pub incarnation : ℕ
  pub value : Slice
  pub estimate : Bool

unfoldable pub is_deleted : ValueItem → Bool
is_deleted v = not (is_some v.value) && not v.estimate

unfoldable pub is_estimate : ValueItem → Bool
is_estimate v = v.estimate

-- `Less`
unfoldable pub less : ValueItem → ValueItem → Bool
less i other = ltb i.index other.index

abbrev pub new_value_item : ℕ → ℕ → Slice → ValueItem
new_value_item index incarnation value = record {
  index = index;
  incarnation = incarnation;
  value = value;
  estimate = false;
}

abbrev pub new_estimate_item : ℕ → ℕ → ValueItem
new_estimate_item index incarnation = record {
  index = index;
  incarnation = incarnation;
  value = none;
  estimate = true;
}

abbrev pub new_deleted_item : ℕ → ℕ → ValueItem
new_deleted_item index incarnation = record {
  index = index;
  incarnation = incarnation;
  value = none;
  estimate = false;
}
