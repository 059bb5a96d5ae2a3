-- ===== src/MultiVersion/TreeItem.antt =====
-- multiversion/data_structures.go, `multiVersionItem`: the versions of a key in a tree of
-- github.com/google/btree, which is a record of operations and laws here.
pub mod Agreement
use melodiasdk_io_store.Prelude.{
  ℕ, zero, suc, ◌≡◌, Bool, not, List, [], ◌∷◌, Option, none, some, Result, ok, ◌>>=◌, ◌>>◌, ◌==◌,
  if◌then◌else◌,
}
use melodiasdk_io_store.Bytes.{Slice}
use melodiasdk_io_store.Types.Validity.{assert_valid_value}
use melodiasdk_io_store.MultiVersion.ValueItem.{
  ValueItem, is_estimate, new_value_item, new_estimate_item, new_deleted_item,
}

-- The items at the indices below `n`, from the greatest index down.
abbrev pub below : (ℕ → Option ValueItem) → ℕ → List ValueItem
below at zero = []
below at (suc i) = elim (at i) [ some v ↦ v ∷ below at i | none ↦ below at i ]

-- The first item of a visit.
abbrev pub head : List ValueItem → Option ValueItem
head [] = none
head (v ∷ l) = some v

-- A visit goes from the greatest index down. The items with an index less than or equal to that of the pivot
-- `index - 1` are those below `index`. `Delete` looks at the index alone.
pub record VersionTree : Type 1 where
  pub State : Type 0
  pub new_tree : State
  pub max : State → Option ValueItem
  pub descend : State → List ValueItem
  pub descend_below : State → ℕ → List ValueItem
  pub replace_or_insert : State → ValueItem → State
  pub delete : State → ℕ → State
  pub at : State → ℕ → Option ValueItem
  pub bound : State → ℕ
  pub at-new : (j : ℕ) → at new_tree j ≡ none
  pub at-replace :
      (t : State) (v : ValueItem) (j : ℕ)
      → at (replace_or_insert t v) j ≡ (if j == v.index then some v else at t j)
  pub at-delete : (t : State) (i j : ℕ) → at (delete t i) j ≡ (if j == i then none else at t j)
  pub descend_lem : (t : State) → descend t ≡ below (at t) (bound t)
  pub descend_below_lem : (t : State) (index : ℕ) → descend_below t index ≡ below (at t) index
  pub max_lem : (t : State) → max t ≡ head (descend t)

-- A visit that stops at the first item that passes the test.
unfoldable pub first_that : (ValueItem → Bool) → List ValueItem → Option ValueItem
first_that test [] = none
first_that test (v ∷ l) = let rest = first_that test l in if test v then some v else rest

module _ (b : VersionTree) where
  pub record MultiVersionItem : Type 0 where
    pub value_tree : b.State

  unfoldable pub new_multi_version_item : MultiVersionItem
  new_multi_version_item = record { value_tree = b.new_tree }

  unfoldable pub get_latest : MultiVersionItem → Option ValueItem
  get_latest item = b.max item.value_tree

  unfoldable pub get_latest_non_estimate : MultiVersionItem → Option ValueItem
  unfolding first_that is_estimate
  get_latest_non_estimate item = first_that (λ v. not (is_estimate v)) (b.descend item.value_tree)

  unfoldable pub get_latest_before_index : MultiVersionItem → ℕ → Option ValueItem
  get_latest_before_index item index = head (b.descend_below item.value_tree index)

  unfoldable pub set : MultiVersionItem → ℕ → ℕ → Slice → Result MultiVersionItem
  set item index incarnation value = do
    assert_valid_value value
    ok (record {
      value_tree = b.replace_or_insert item.value_tree (new_value_item index incarnation value);
    })

  unfoldable pub delete : MultiVersionItem → ℕ → ℕ → MultiVersionItem
  delete item index incarnation = record {
    value_tree = b.replace_or_insert item.value_tree (new_deleted_item index incarnation);
  }

  unfoldable pub remove : MultiVersionItem → ℕ → MultiVersionItem
  remove item index = record { value_tree = b.delete item.value_tree index }

  unfoldable pub set_estimate : MultiVersionItem → ℕ → ℕ → MultiVersionItem
  set_estimate item index incarnation = record {
    value_tree = b.replace_or_insert item.value_tree (new_estimate_item index incarnation);
  }
