-- ===== src/Tests/MultiVersion.antt =====
-- The version lists of multiversion/data_list.go on a list of four slots.
use melodiasdk_io_store.Prelude.{
  Option, ◌+◌, ◌==◌, leb, if◌then◌else◌, ℕ, zero, suc, ◌≡◌, refl, [], ◌∷◌, some, none, arith,
}
use melodiasdk_io_store.MultiVersion.ValueItem.{ValueItem, new_value_item, new_estimate_item}
use melodiasdk_io_store.MultiVersion.ListItem.{MultiVersionListItem, slot, get_latest_before_index}
use melodiasdk_io_store.MultiVersion.TreeItem
use melodiasdk_io_store.MultiVersion.TreeItem.{VersionTree, MultiVersionItem, below, head}
use melodiasdk_io_store.MultiVersion.TreeItem.Agreement
use melodiasdk_io_store.MultiVersion.TreeItem.Agreement.{Agree}
use melodiasdk_io_store.MultiVersion.ListItem.Reads.{IsPlaced}

-- Transaction 1 has written, transaction 2 has left an estimate.
abbrev versions : MultiVersionListItem
versions = record {
  value_list =
      none ∷ some (new_value_item 1 0 (some (5 ∷ []))) ∷ some (new_estimate_item 2 1) ∷ none ∷ [];
}

versions-IsPlaced : IsPlaced versions.value_list
versions-IsPlaced = record { placed = at_index }
  where
    at_index : (j : ℕ) (v : ValueItem) → slot versions.value_list j ≡ some v → v.index ≡ j
    at_index zero v e = absurd (ground arith)
    at_index (suc zero) v e = ground arith
    at_index (suc (suc zero)) v e = ground arith
    at_index (suc (suc (suc zero))) v e = absurd (ground arith)
    at_index (suc (suc (suc (suc j)))) v e = absurd (ground arith)

-- A tree as the function from indices to items.
abbrev function_tree : VersionTree
function_tree = record {
  State = (ℕ → Option ValueItem) × ℕ;
  new_tree = (λ j. none, 0);
  max = λ t. head (below t.0 t.1);
  descend = λ t. below t.0 t.1;
  descend_below = λ t index. below t.0 index;
  replace_or_insert = λ t v.
      (λ j. if j == v.index then some v else t.0 j, if leb t.1 v.index then v.index + 1 else t.1);
  delete = λ t i. (λ j. if j == i then none else t.0 j, t.1);
  at = λ t. t.0;
  bound = λ t. t.1;
  at-new = λ j. refl;
  at-replace = λ t v j. refl;
  at-delete = λ t i j. refl;
  descend_lem = λ t. refl;
  descend_below_lem = λ t index. refl;
  max_lem = λ t. refl;
}

abbrev tree_item : MultiVersionItem function_tree
tree_item = record {
  value_tree = (
    λ j.
        if j == 2
        then some (new_estimate_item 2 1)
        else if j == 1
        then some (new_value_item 1 0 (some (5 ∷ [])))
        else none,
    3,
  );
}

tree_item-Agree : Agree function_tree tree_item versions
tree_item-Agree = record { same = at_index }
  where
    at_index : (j : ℕ) → slot versions.value_list j ≡ function_tree.at tree_item.value_tree j
    at_index zero = refl
    at_index (suc zero) = refl
    at_index (suc (suc zero)) = refl
    at_index (suc (suc (suc zero))) = refl
    at_index (suc (suc (suc (suc j)))) = ground arith

readers_agree_lem_example :
    TreeItem.get_latest_before_index function_tree tree_item 3 ≡ get_latest_before_index versions 3
readers_agree_lem_example =
    Agreement.readers_agree_lem function_tree tree_item versions 3 tree_item-Agree versions-IsPlaced
      (omega arith)
