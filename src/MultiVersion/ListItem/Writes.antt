-- ===== src/MultiVersion/ListItem/Writes.antt =====
-- What the writers of multiversion/data_list.go change, within the list and beyond it.
use melodiasdk_io_store.Prelude.{
  ℕ, zero, suc, ◌-◌, ◌<◌, ◌≤◌, ◌≡◌, ◌≢◌, refl, Bool, true, false, List, none, some, ok, length, set,
  ltb, leb, if◌then◌else◌, arith, length-set, get_elem?-set_self, get_elem?-set_ne,
}
use melodiasdk_io_store.Bytes.{Bytes}
use melodiasdk_io_store.Types.Validity.{IsValue, assert_valid_value_lem}
use melodiasdk_io_store.MultiVersion.ValueItem.{
  ValueItem, new_value_item, new_estimate_item, new_deleted_item,
}
use melodiasdk_io_store.MultiVersion.ListItem.{
  Slot, MultiVersionListItem, slot, scan_down, get_latest_before_index, set_common_value, set_value,
  set_estimate, delete, remove, put_slot, clamp,
}

-- The slot of a given item is written and no other.
pub record Puts (m : MultiVersionListItem) (index : ℕ) (s : Slot) (m' : MultiVersionListItem)
    : Type 0 where
  pub same_length : length m'.value_list ≡ length m.value_list
  pub written : slot m'.value_list index ≡ s
  pub others : (j : ℕ) → index ≢ j → slot m'.value_list j ≡ slot m.value_list j

pub set-Puts :
    (m : MultiVersionListItem) (index : ℕ) (s : Slot)
    → index < length m.value_list
    → Puts m index s (record { value_list = set m.value_list index s })
set-Puts m index s h = record {
  same_length = length-set m.value_list index s;
  written = rw (slot, get_elem?-set_self m.value_list index s h);
  others = λ j ne. rw (slot, get_elem?-set_ne m.value_list index j s ne);
}

put_slot_lem :
    (m : MultiVersionListItem) (index : ℕ) (s : Slot)
    → index < length m.value_list
    → (m' : MultiVersionListItem) × (put_slot m index s ≡ ok m') × Puts m index s m'
put_slot_lem m index s h =
    let inside : ltb index (length m.value_list) ≡ true = ground arith in
    (record { value_list = set m.value_list index s }, rw inside, set-Puts m index s h)

clamp-inside : (l : List Slot) (index : ℕ) → index < length l → clamp l index ≡ index
clamp-inside l index h = ground arith

clamp-beyond : (l : List Slot) (index : ℕ) → length l ≤ index → clamp l index ≡ length l - 1
clamp-beyond l index h = ground arith

-- Within the list each writer succeeds and changes the slot of the index alone, to the item it stands for.
pub writers_lem :
    (m : MultiVersionListItem) (index incarnation : ℕ) (v : Bytes)
    → IsValue v
    → index < length m.value_list
    → ((m' : MultiVersionListItem) × (set_value m index incarnation (some v) ≡ ok m')
        × Puts m index (some (new_value_item index incarnation (some v))) m')
      × ((m' : MultiVersionListItem) × (set_estimate m index incarnation ≡ ok m')
          × Puts m index (some (new_estimate_item index incarnation)) m')
      × ((m' : MultiVersionListItem) × (delete m index incarnation ≡ ok m')
          × Puts m index (some (new_deleted_item index incarnation)) m')
      × ((m' : MultiVersionListItem) × (remove m index ≡ ok m') × Puts m index none m')
unfolding set_value set_estimate delete remove set_common_value
writers_lem m index incarnation v valid h =
    let c = clamp-inside m.value_list index h in
    (
      rw (assert_valid_value_lem v valid)
          (rw c (put_slot_lem m index (some (new_value_item index incarnation (some v))) h)),
      rw c (put_slot_lem m index (some (new_estimate_item index incarnation)) h),
      rw c (rw c (put_slot_lem m index (some (new_deleted_item index incarnation)) h)),
      rw c (put_slot_lem m index none h),
    )

scan_down-agree :
    (test : ValueItem → Bool) (l l' : List Slot) (n : ℕ)
    → ((j : ℕ) → j < n → slot l' j ≡ slot l j)
    → scan_down test l' n ≡ scan_down test l n
unfolding scan_down
scan_down-agree test l l' zero h = refl
scan_down-agree test l l' (suc i) h =
    let same = h i (omega arith) in
    let below = scan_down-agree test l l' i (λ j lt. h j (omega arith)) in
    λ k. elim (same k) [ some v ↦ if test v then some v else below k | none ↦ below k ]

-- After a write of an item at an index, the reader of the next index finds that item, and the readers of
-- the index and of those below it find what they found before.
pub put_visibility :
    (m m' : MultiVersionListItem) (index j : ℕ) (v : ValueItem)
    → Puts m index (some v) m'
    → v.index ≡ index
    → suc index < length m.value_list
    → j ≤ index
    → (get_latest_before_index m' (suc index) ≡ some v)
      × (get_latest_before_index m' j ≡ get_latest_before_index m j)
unfolding get_latest_before_index scan_down
put_visibility m m' index j v p e h le =
    let inside : leb (length m'.value_list) (suc index) ≡ false = ground (arith, p.same_length) in
    let test : ltb v.index (suc index) ≡ true = ground arith in
    (
      rw (inside, scan_down, p.written, test) refl,
      rw p.same_length (
          rw (
            scan_down-agree (λ w. ltb w.index j) m.value_list m'.value_list j
              (λ k lt. p.others k (omega arith)))),
    )

-- A write beyond a list that is not empty replaces the last slot: `Set` and `SetEstimate` leave an item of
-- the given index there, `Delete` one of the last index, and `Remove` clears it.
pub writers_beyond :
    (m : MultiVersionListItem) (index incarnation : ℕ) (v : Bytes)
    → IsValue v
    → 0 < length m.value_list
    → length m.value_list ≤ index
    → ((m' : MultiVersionListItem) × (set_value m index incarnation (some v) ≡ ok m')
        × Puts m (length m.value_list - 1) (some (new_value_item index incarnation (some v))) m')
      × ((m' : MultiVersionListItem) × (set_estimate m index incarnation ≡ ok m')
          × Puts m (length m.value_list - 1) (some (new_estimate_item index incarnation)) m')
      × ((m' : MultiVersionListItem) × (delete m index incarnation ≡ ok m')
          × Puts m
              (length m.value_list - 1)
              (some (new_deleted_item (length m.value_list - 1) incarnation))
              m')
      × ((m' : MultiVersionListItem) × (remove m index ≡ ok m')
          × Puts m (length m.value_list - 1) none m')
unfolding set_value set_estimate delete remove set_common_value
writers_beyond m index incarnation v valid some_slot h =
    let last : length m.value_list - 1 < length m.value_list = omega arith in
    let c = clamp-beyond m.value_list index h in
    let c' = clamp-inside m.value_list (length m.value_list - 1) last in
    (
      rw (assert_valid_value_lem v valid) (
          rw c (
            put_slot_lem m (length m.value_list - 1)
              (some (new_value_item index incarnation (some v))) last)),
      rw c (
          put_slot_lem m (length m.value_list - 1) (some (new_estimate_item index incarnation))
            last),
      rw c (
          rw c' (
            put_slot_lem m (length m.value_list - 1)
              (some (new_deleted_item (length m.value_list - 1) incarnation)) last)),
      rw c (put_slot_lem m (length m.value_list - 1) none last),
    )
