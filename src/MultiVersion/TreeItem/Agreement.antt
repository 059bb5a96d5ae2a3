-- ===== src/MultiVersion/TreeItem/Agreement.antt =====
-- The items of multiversion/data_structures.go and of multiversion/data_list.go agree.
use melodiasdk_io_store.Prelude.{
  ℕ, zero, suc, ◌<◌, ◌≤◌, ◌≡◌, ◌≢◌, refl, sym, ap, ◌∙◌, true, false, List, Option, none, some, ok,
  arith, length, ltb, leb, ◌==◌, if◌then◌else◌, Option-cases, Bool-cases, inl, inr,
}
use melodiasdk_io_store.Bytes.{Bytes}
use melodiasdk_io_store.Types.Validity.{IsValue, assert_valid_value_lem}
use melodiasdk_io_store.MultiVersion.ValueItem.{
  ValueItem, new_value_item, new_estimate_item, new_deleted_item,
}
use melodiasdk_io_store.MultiVersion.ListItem
use melodiasdk_io_store.MultiVersion.ListItem.{Slot, MultiVersionListItem, slot, scan_down}
use melodiasdk_io_store.MultiVersion.ListItem.Reads.{IsPlaced}
use melodiasdk_io_store.MultiVersion.ListItem.Writes.{Puts, writers_lem}
use melodiasdk_io_store.MultiVersion.TreeItem.{
  VersionTree, below, head, MultiVersionItem, get_latest_before_index, set, delete, remove,
  set_estimate,
}

-- A scan of the slots whose items pass the test is the head of the visit.
scan_below :
    (l : List Slot) (at : ℕ → Option ValueItem) (index n : ℕ)
    → IsPlaced l
    → ((j : ℕ) → slot l j ≡ at j)
    → n ≤ index
    → scan_down (λ v. ltb v.index index) l n ≡ head (below at n)
unfolding scan_down
scan_below l at index zero p h le = refl
scan_below l at index (suc i) p h le = elim (Option-cases (slot l i)) [
  | inl e ↦
      let gone : at i ≡ none = sym (h i) ∙ e in
      rw (scan_down, e, below, gone) (scan_below l at index i p h (omega (arith, le)))
  | inr (v, e) ↦
      let there : at i ≡ some v = sym (h i) ∙ e in
      let here : v.index ≡ i = p.placed i v e in
      let passes : ltb v.index index ≡ true = ground arith in
      rw (scan_down, e, below, there, passes)
]

module _ (b : VersionTree) where
  -- The tree and the list hold the same version at each index.
  pub record Agree (t : MultiVersionItem b) (m : MultiVersionListItem) : Type 0 where
    pub same : (j : ℕ) → slot m.value_list j ≡ b.at t.value_tree j

  -- Where a tree and a list with each item in its slot hold the same versions, `GetLatestBeforeIndex` of both
  -- gives the same for every index within the list.
  pub readers_agree_lem :
      (t : MultiVersionItem b) (m : MultiVersionListItem) (index : ℕ)
      → Agree t m
      → IsPlaced m.value_list
      → index < length m.value_list
      → get_latest_before_index b t index ≡ ListItem.get_latest_before_index m index
  unfolding get_latest_before_index ListItem.get_latest_before_index
  readers_agree_lem t m index a p lt =
      let inside : leb (length m.value_list) index ≡ false = ground arith in
      rw inside (
        ap head (b.descend_below_lem t.value_tree index)
        ∙ sym (scan_below m.value_list (b.at t.value_tree) index index p a.same (omega arith)))

  Agree-put :
      (t t' : MultiVersionItem b) (m m' : MultiVersionListItem) (index : ℕ) (s : Slot)
      → Agree t m
      → Puts m index s m'
      → ((j : ℕ) → b.at t'.value_tree j ≡ (if j == index then s else b.at t.value_tree j))
      → Agree t' m'
  Agree-put t t' m m' index s a w h = record { same = λ j. at_slot j ∙ sym (h j) }
    where
      at_slot : (j : ℕ) → slot m'.value_list j ≡ (if j == index then s else b.at t.value_tree j)
      at_slot j = elim (Bool-cases (j == index)) [
        | inl e ↦ let same : j ≡ index = ground arith in rw (e, same) w.written
        | inr e ↦ let ne : index ≢ j = λ q. ground arith in rw e (w.others j ne ∙ a.same j)
      ]

  -- Within the list each writer of the tree and of the list keeps the versions the same.
  pub writers_agree_lem :
      (t : MultiVersionItem b) (m : MultiVersionListItem) (index incarnation : ℕ) (v : Bytes)
      → Agree t m
      → IsValue v
      → index < length m.value_list
      → ((t' : MultiVersionItem b) × (m' : MultiVersionListItem) × (set b t index incarnation
              (some v)
            ≡ ok t')
          × (ListItem.set_value m index incarnation (some v) ≡ ok m')
          × Agree t' m')
        × ((m' : MultiVersionListItem) × (ListItem.set_estimate m index incarnation ≡ ok m')
            × Agree (set_estimate b t index incarnation) m')
        × ((m' : MultiVersionListItem) × (ListItem.delete m index incarnation ≡ ok m')
            × Agree (delete b t index incarnation) m')
        × ((m' : MultiVersionListItem) × (ListItem.remove m index ≡ ok m')
            × Agree (remove b t index) m')
  unfolding set set_estimate delete remove
  writers_agree_lem t m index incarnation v a iv lt =
      let ((m1, run1, w1), (m2, run2, w2), (m3, run3, w3), (m4, run4, w4)) =
        writers_lem m index incarnation v iv lt in
      let put = Agree-put t in
      (
        (
          record {
            value_tree =
                b.replace_or_insert t.value_tree (new_value_item index incarnation (some v));
          },
          m1,
          rw (set, assert_valid_value_lem v iv),
          run1,
          put _ m m1 index (some (new_value_item index incarnation (some v))) a w1
              (b.at-replace t.value_tree (new_value_item index incarnation (some v))),
        ),
        (
          m2,
          run2,
          put _ m m2 index (some (new_estimate_item index incarnation)) a w2
              (b.at-replace t.value_tree (new_estimate_item index incarnation)),
        ),
        (
          m3,
          run3,
          put _ m m3 index (some (new_deleted_item index incarnation)) a w3
              (b.at-replace t.value_tree (new_deleted_item index incarnation)),
        ),
        (m4, run4, put _ m m4 index none a w4 (b.at-delete t.value_tree index)),
      )
