-- ===== src/MultiVersion/ListItem/Stale.antt =====
-- multiversion/data_list.go: a list of one slot, as NewKey of multiversion/list_store.go makes it for a key
-- with a single writer, that a reader lengthens between the write and the removal.
use melodiasdk_io_store.Prelude.{
  ℕ, zero, suc, ◌+◌, ◌-◌, ◌*◌, ◌<◌, ◌≡◌, refl, ap, ◌∙◌, Bool, true, false, ◌∷◌, none, some, ok,
  arith, length, set, replicate, ltb, leb, length-replicate,
}
use melodiasdk_io_store.Bytes.{Bytes}
use melodiasdk_io_store.Types.Validity.{IsValue, assert_valid_value_lem}
use melodiasdk_io_store.MultiVersion.ValueItem.{ValueItem, new_value_item}
use melodiasdk_io_store.MultiVersion.ListItem.{
  Slot, MultiVersionListItem, new_multi_version_list_item, slot, scan_down, expand,
  get_latest_before_index_expansion, set_value, set_common_value, remove,
}

slot-replicate : (n j : ℕ) → slot (replicate n none) j ≡ none
slot-replicate zero j = refl
slot-replicate (suc n) zero = refl
slot-replicate (suc n) (suc j) = slot-replicate n j

set-replicate : (n j : ℕ) → set (replicate {A = Slot} n none) j none ≡ replicate n none
set-replicate zero j = refl
set-replicate (suc n) zero = refl
set-replicate (suc n) (suc j) = ap (λ l. none ∷ l) (set-replicate n j)

-- The item of the first slot is found from any index above, if all other slots are empty.
scan_first :
    (test : ValueItem → Bool) (v : ValueItem) (n i : ℕ)
    → test v ≡ true
    → scan_down test (some v ∷ replicate n none) (suc i) ≡ some v
unfolding scan_down
scan_first test v n zero e = rw e
scan_first test v n (suc i) e = rw (scan_down, slot-replicate n i) (scan_first test v n i e)

abbrev lengthened : ValueItem → ℕ → MultiVersionListItem
lengthened v n = record { value_list = some v ∷ replicate n none }

-- The number of slots that a reader adds to the one slot.
abbrev added : ℕ → ℕ
added reader = (reader + 1 - 1) * 2

expand_short :
    (v : ValueItem) (r : ℕ) → expand (lengthened v 0) (suc r) ≡ lengthened v (added (suc r))
unfolding expand
expand_short v r = rw (one_slot r)
  where
    one_slot : (r : ℕ) → leb 1 (suc r) ≡ true
    one_slot r = ground arith

expand_long : (v : ValueItem) (n r : ℕ) → r < n → expand (lengthened v n) (suc r) ≡ lengthened v n
unfolding expand
expand_long v n r h = rw (enough (length-replicate {A = Slot} n none))
  where
    enough :
        length (replicate {A = Slot} n none) ≡ n
        → leb (suc (length (replicate {A = Slot} n none))) (suc r) ≡ false
    enough e = ground arith

read_lengthened :
    (v : ValueItem) (n r : ℕ) (m : MultiVersionListItem)
    → expand m (suc r) ≡ lengthened v n
    → ltb v.index (suc r) ≡ true
    → get_latest_before_index_expansion m (suc r) ≡ (some v, lengthened v n)
unfolding get_latest_before_index_expansion
read_lengthened v n r m e t =
    ap
      (λ (x : MultiVersionListItem). (scan_down (λ w. ltb w.index (suc r)) x.value_list (suc r), x))
      e
    ∙ ap (λ x. (x, lengthened v n)) (scan_first (λ w. ltb w.index (suc r)) v n r t)

remove_long :
    (v : ValueItem) (n i : ℕ) → i < n → remove (lengthened v n) (suc i) ≡ ok (lengthened v n)
unfolding remove
remove_long v n i h =
    rw (inside (length-replicate {A = Slot} n none))
      (rw (below (length-replicate {A = Slot} n none)) (rw (set-replicate n i)))
  where
    inside :
        length (replicate {A = Slot} n none) ≡ n
        → leb (suc (length (replicate {A = Slot} n none))) (suc i) ≡ false
    inside e = ground arith

    below :
        length (replicate {A = Slot} n none) ≡ n
        → ltb (suc i) (suc (length (replicate {A = Slot} n none))) ≡ true
    below e = ground arith

write_first :
    (i incarnation : ℕ) (v : Bytes)
    → IsValue v
    → set_value (new_multi_version_list_item 1) (suc i) incarnation (some v)
      ≡ ok (lengthened (new_value_item (suc i) incarnation (some v)) 0)
unfolding set_value set_common_value new_multi_version_list_item
write_first i incarnation v h = rw (set_value, assert_valid_value_lem v h, beyond)
  where
    beyond : leb 1 (suc i) ≡ true
    beyond = ground arith

-- A write at a later index goes to the one slot; a reader above finds it and lengthens the list; the removal
-- of that index then clears another slot, and the reader still finds the value that was removed.
pub stale_after_expansion :
    (index incarnation reader : ℕ) (v : Bytes)
    → IsValue v
    → 0 < index
    → index < reader
    → (m1 : MultiVersionListItem) × (m2 : MultiVersionListItem) × (m3 : MultiVersionListItem)
      × (set_value (new_multi_version_list_item 1) index incarnation (some v) ≡ ok m1)
      × (get_latest_before_index_expansion m1 reader
          ≡ (some (new_value_item index incarnation (some v)), m2))
      × (remove m2 index ≡ ok m3)
      × ((get_latest_before_index_expansion m3 reader).0
          ≡ some (new_value_item index incarnation (some v)))
stale_after_expansion zero incarnation reader v iv h g = absurd (omega (arith, h))
stale_after_expansion (suc i) incarnation zero v iv h g = absurd (omega (arith, g))
stale_after_expansion (suc i) incarnation (suc r) v iv h g =
    let item = new_value_item (suc i) incarnation (some v) in
    let n = added (suc r) in
    let found : ltb (suc i) (suc r) ≡ true = ground arith in
    (
      lengthened item 0,
      lengthened item n,
      lengthened item n,
      write_first i incarnation v iv,
      read_lengthened item n r (lengthened item 0) (expand_short item r) found,
      remove_long item n i (omega (arith, g)),
      ap (λ x. x.0)
          (read_lengthened item n r (lengthened item n) (expand_long item n r (omega arith)) found),
    )
