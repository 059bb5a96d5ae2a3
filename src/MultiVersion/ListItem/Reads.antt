-- ===== src/MultiVersion/ListItem/Reads.antt =====
-- What the readers of multiversion/data_list.go find.
use melodiasdk_io_store.Prelude.{
  ℕ, zero, suc, ◌+◌, ◌-◌, ◌*◌, ◌<◌, ◌≤◌, ◌≡◌, refl, Bool, true, false, not, List, [], ◌∷◌, ◌++◌,
  Option, none, some, length, replicate, ltb, leb, if◌then◌else◌, arith, Bool-cases, inl, inr, sym,
  ◌∙◌, subst, is_some,
}
use melodiasdk_io_store.MultiVersion.ValueItem.{ValueItem, is_estimate}
use melodiasdk_io_store.MultiVersion.ListItem.{
  Slot, MultiVersionListItem, slot, scan_down, get_latest, get_latest_non_estimate,
  get_latest_before_index, get_latest_before_index_expansion, expand,
}

-- `r` is the item of the greatest slot below `n` that passes the test, if any does.
pub data Latest (test : ValueItem → Bool) (l : List Slot) (n : ℕ) (r : Option ValueItem)
    : Type 0 where
  none_passes :
      ((j : ℕ) (v : ValueItem) → j < n → slot l j ≡ some v → test v ≡ false)
      → r ≡ none
      → Latest test l n r
  at :
      (i : ℕ) (v : ValueItem)
      → i < n
      → slot l i ≡ some v
      → test v ≡ true
      → ((j : ℕ) (w : ValueItem) → i < j → j < n → slot l j ≡ some w → test w ≡ false)
      → r ≡ some v
      → Latest test l n r

le_of_not-ltb : (j i : ℕ) → ltb j i ≡ false → i ≤ j
le_of_not-ltb j i h = ground arith

module _ (test : ValueItem → Bool) (l : List Slot) where
  Latest-skip :
      {i : ℕ} {r : Option ValueItem}
      → ((v : ValueItem) → slot l i ≡ some v → test v ≡ false)
      → Latest test l i r
      → Latest test l (suc i) r
  Latest-skip {i} skip (none_passes all e) =
      none_passes
        (λ j v h q. elim (Bool-cases (ltb j i)) [
          | inl lt ↦ all j v (ground arith) q
          | inr ge ↦
              let same : j ≡ i = omega (arith, le_of_not-ltb j i ge) in
              skip v (subst (λ x. slot l x ≡ some v) same q)
        ])
        e
  Latest-skip {i} skip (at k v lt q t above e) =
      at k v (omega arith) q t
        (λ j w gt h q'. elim (Bool-cases (ltb j i)) [
          | inl lt' ↦ above j w gt (ground arith) q'
          | inr ge ↦
              let same : j ≡ i = omega (arith, le_of_not-ltb j i ge) in
              skip w (subst (λ x. slot l x ≡ some w) same q')
        ])
        e

  Latest-here :
      {i : ℕ} {v : ValueItem} → slot l i ≡ some v → test v ≡ true → Latest test l (suc i) (some v)
  Latest-here {i} {v} q t = at i v (omega arith) q t (λ j w gt h e. absurd (omega arith)) refl

  pub scan_down-Latest : (n : ℕ) → Latest test l n (scan_down test l n)
  unfolding scan_down
  scan_down-Latest zero = none_passes (λ j v h e. elim h [ ]) refl
  scan_down-Latest (suc i) = step (slot l i) refl (scan_down test l i) (scan_down-Latest i)
    where
      step :
          (s : Slot)
          → slot l i ≡ s
          → (r : Option ValueItem) → Latest test l i r
          → Latest test l (suc i) (elim s [ some v ↦ if test v then some v else r | none ↦ r ])
      step none e r p = Latest-skip (λ v q. absurd (ground arith)) p
      step (some v) e r p = elim (Bool-cases (test v)) [
        | inl t ↦ rw t (Latest-here e t)
        | inr t ↦ rw t (Latest-skip (λ w q. ground arith) p)
      ]

-- Each slot holds an item of its own index.
pub record IsPlaced (l : List Slot) : Type 0 where
  pub placed : (j : ℕ) (v : ValueItem) → slot l j ≡ some v → v.index ≡ j

abbrev pub any_item : ValueItem → Bool
any_item v = true

Latest-any :
    (l : List Slot) (n : ℕ) (r : Option ValueItem)
    → IsPlaced l
    → Latest (λ v. ltb v.index n) l n r
    → Latest any_item l n r
Latest-any l n r p (none_passes all e) =
    none_passes (λ j v h q. absurd (ground (arith, all j v h q, p.placed j v q))) e
Latest-any l n r p (at i v lt q t above e) =
    at i v lt q refl (λ j w gt h q'. absurd (ground (arith, above j w gt h q', p.placed j w q'))) e

-- Within the list `GetLatestBeforeIndex` returns the item of the greatest index below the given one, and
-- reports none exactly if there is none.
pub get_latest_before_index_lem :
    (m : MultiVersionListItem) (index : ℕ)
    → IsPlaced m.value_list
    → index < length m.value_list
    → Latest any_item m.value_list index (get_latest_before_index m index)
unfolding get_latest_before_index
get_latest_before_index_lem m index p h =
    let inside : leb (length m.value_list) index ≡ false = ground arith in
    rw inside (
      Latest-any m.value_list index _ p
        (scan_down-Latest (λ v. ltb v.index index) m.value_list index))

-- `GetLatest` and `GetLatestNonEstimate` return the item of the greatest index, among all and among those
-- that are no estimates.
pub get_latest_lem :
    (m : MultiVersionListItem)
    → Latest any_item m.value_list (length m.value_list) (get_latest m)
      × Latest
          (λ v. not (is_estimate v))
          m.value_list
          (length m.value_list)
          (get_latest_non_estimate m)
unfolding get_latest get_latest_non_estimate
get_latest_lem m = (
  scan_down-Latest any_item m.value_list (length m.value_list),
  scan_down-Latest (λ v. not v.estimate) m.value_list (length m.value_list),
)

slot-append_none : (l : List Slot) (n j : ℕ) → slot (l ++ replicate n none) j ≡ slot l j
slot-append_none [] zero j = refl
slot-append_none [] (suc n) zero = refl
slot-append_none [] (suc n) (suc j) = slot-append_none [] n j
slot-append_none (x ∷ l) n zero = refl
slot-append_none (x ∷ l) n (suc j) = slot-append_none l n j

pub slot-expand :
    (m : MultiVersionListItem) (index j : ℕ)
    → slot (expand m index).value_list j ≡ slot m.value_list j
unfolding expand
slot-expand m index j = elim (Bool-cases (leb (length m.value_list) index)) [
  | inl e ↦ rw e (slot-append_none m.value_list ((index + 1 - length m.value_list) * 2) j)
  | inr e ↦ rw e
]

-- `GetLatestBeforeIndexExpansion` finds the item of the greatest index below the given one, also beyond
-- the list, and changes no slot.
pub get_latest_before_index_expansion_lem :
    (m : MultiVersionListItem) (index : ℕ)
    → IsPlaced m.value_list
    → Latest any_item
        (get_latest_before_index_expansion m index).1.value_list
        index
        (get_latest_before_index_expansion m index).0
      × ((j : ℕ)
          → slot (get_latest_before_index_expansion m index).1.value_list j ≡ slot m.value_list j)
unfolding get_latest_before_index_expansion
get_latest_before_index_expansion_lem m index p =
    let l = (expand m index).value_list in
    (
      Latest-any l index _
          (record { placed = λ j v q. p.placed j v (sym (slot-expand m index j) ∙ q) })
          (scan_down-Latest (λ v. ltb v.index index) l index),
      slot-expand m index,
    )

pub slot-lt : (l : List Slot) (j : ℕ) {v : ValueItem} → slot l j ≡ some v → j < length l
slot-lt [] zero q = absurd (ground arith)
slot-lt [] (suc j) q = absurd (ground arith)
slot-lt (x ∷ l) zero q = ground arith
slot-lt (x ∷ l) (suc j) q = omega (arith, slot-lt l j q)

Latest-found :
    {l : List Slot} {n j : ℕ} {v : ValueItem} {r : Option ValueItem}
    → slot l j ≡ some v
    → j < n
    → Latest any_item l n r
    → is_some r ≡ true
Latest-found {j} {v} q lt (none_passes all e) = absurd (ground (arith, all j v lt q))
Latest-found q lt (at i w lt' q' t above e) = rw e

-- Beyond the list `GetLatestBeforeIndex` reports none although the list holds an item of a lower index,
-- which the expanding reader finds.
pub misses_beyond :
    (m : MultiVersionListItem) (index j : ℕ) (v : ValueItem)
    → IsPlaced m.value_list
    → length m.value_list ≤ index
    → slot m.value_list j ≡ some v
    → (get_latest_before_index m index ≡ none)
      × (is_some (get_latest_before_index_expansion m index).0 ≡ true)
unfolding get_latest_before_index
misses_beyond m index j v p h q =
    let beyond : leb (length m.value_list) index ≡ true = ground arith in
    let found = get_latest_before_index_expansion_lem m index p in
    (rw beyond, Latest-found (found.1 j ∙ q) (omega (arith, slot-lt m.value_list j q)) found.0)
