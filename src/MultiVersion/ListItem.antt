-- ===== src/MultiVersion/ListItem.antt =====
-- multiversion/data_list.go: the versions of a key in a list with a slot for each transaction. A write
-- beyond the list goes to its last slot, as in the source, and panics where there is no slot.
pub mod Reads
pub mod Writes
pub mod Stale
use melodiasdk_io_store.Prelude.{
  ℕ, zero, suc, ◌+◌, ◌-◌, ◌*◌, Bool, true, not, List, [], ◌∷◌, ◌++◌, Option, none, some, Result, ok,
  panic, index_out_of_range, length, get_elem?, set, replicate, ltb, leb, if◌then◌else◌, ◌>>=◌,
  ◌>>◌,
}
use melodiasdk_io_store.Bytes.{Slice}
use melodiasdk_io_store.Types.Validity.{assert_valid_value}
use melodiasdk_io_store.MultiVersion.ValueItem.{
  ValueItem, is_estimate, new_value_item, new_estimate_item, new_deleted_item,
}

abbrev pub Slot : Type 0
Slot = Option ValueItem

pub record MultiVersionListItem : Type 0 where
  pub value_list : List Slot

unfoldable pub new_multi_version_list_item : ℕ → MultiVersionListItem
new_multi_version_list_item size = record { value_list = replicate size none }

-- The slot at an index; a nil slot where there is none.
abbrev pub slot : List Slot → ℕ → Slot
slot l i = elim (get_elem? l i) [ some s ↦ s | none ↦ none ]

-- The loops that go down from the slot before `n` to the first item that passes the test.
unfoldable pub scan_down : (ValueItem → Bool) → List Slot → ℕ → Option ValueItem
scan_down test l zero = none
scan_down test l (suc i) =
    let below = scan_down test l i in
    elim (slot l i) [ some v ↦ if test v then some v else below | none ↦ below ]

unfoldable pub get_latest : MultiVersionListItem → Option ValueItem
unfolding scan_down
get_latest m = scan_down (λ v. true) m.value_list (length m.value_list)

unfoldable pub get_latest_non_estimate : MultiVersionListItem → Option ValueItem
unfolding scan_down is_estimate
get_latest_non_estimate m = scan_down (λ v. not (is_estimate v)) m.value_list (length m.value_list)

unfoldable pub get_latest_before_index : MultiVersionListItem → ℕ → Option ValueItem
unfolding scan_down
get_latest_before_index m index =
    if leb (length m.value_list) index
    then none
    else scan_down (λ v. ltb v.index index) m.value_list index

-- Appends nil slots until the index has one.
unfoldable pub expand : MultiVersionListItem → ℕ → MultiVersionListItem
expand m index =
    if leb (length m.value_list) index
    then record {
      value_list = m.value_list ++ replicate ((index + 1 - length m.value_list) * 2) none;
    }
    else m

unfoldable pub get_latest_before_index_expansion :
    MultiVersionListItem → ℕ → Option ValueItem × MultiVersionListItem
unfolding expand scan_down
get_latest_before_index_expansion m index =
    let m' = expand m index in (scan_down (λ v. ltb v.index index) m'.value_list index, m')

-- The index of a write: beyond the list it is the last slot's.
abbrev pub clamp : List Slot → ℕ → ℕ
clamp l index = if leb (length l) index then length l - 1 else index

-- `m.valueList[index] = s`, at an index that is clamped already.
abbrev pub put_slot : MultiVersionListItem → ℕ → Slot → Result MultiVersionListItem
put_slot m index s =
    if ltb index (length m.value_list)
    then ok (record { value_list = set m.value_list index s })
    else panic index_out_of_range

unfoldable pub set_common_value : MultiVersionListItem → ℕ → ValueItem → Result MultiVersionListItem
set_common_value m index item = put_slot m (clamp m.value_list index) (some item)

unfoldable pub set_value : MultiVersionListItem → ℕ → ℕ → Slice → Result MultiVersionListItem
unfolding set_common_value
set_value m index incarnation value = do
  assert_valid_value value
  set_common_value m index (new_value_item index incarnation value)

unfoldable pub set_estimate : MultiVersionListItem → ℕ → ℕ → Result MultiVersionListItem
unfolding set_common_value
set_estimate m index incarnation = set_common_value m index (new_estimate_item index incarnation)

-- `Delete` clamps the index before it makes the item.
unfoldable pub delete : MultiVersionListItem → ℕ → ℕ → Result MultiVersionListItem
unfolding set_common_value
delete m index incarnation =
    let i = clamp m.value_list index in set_common_value m i (new_deleted_item i incarnation)

unfoldable pub remove : MultiVersionListItem → ℕ → Result MultiVersionListItem
remove m index = put_slot m (clamp m.value_list index) none
