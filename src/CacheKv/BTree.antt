-- ===== src/CacheKv/BTree.antt =====
-- cachekv/internal/btree.go. The tree itself, `btree.BTreeG` of github.com/tidwall/btree, is not code
-- of the repository: it is the parameter `BTreeG`, a sorted map with cursors, with the laws that its
-- documentation states.
use melodiasdk_io_store.Prelude.{
  ◌≡◌, Bool, [], ◌∷◌, Option, none, some, Result, ok, reverse, key_empty, if◌then◌else◌, ◌||◌,
  guard, not, true, is_some,
}
use melodiasdk_io_store.Bytes.{Bytes, Slice, bytes_eq, compare_bytes, is_lt}
use melodiasdk_io_store.Bytes.Order.{direction}
use melodiasdk_io_store.Sorted.{find, IsSorted}
use melodiasdk_io_store.Sorted.Range.{skip_while}
use melodiasdk_io_store.Iterator.{Item, Iter, is_valid}
use melodiasdk_io_store.Types.KvStore.{is_empty}

abbrev pub rest : Iter → Iter
rest [] = []
rest (x ∷ l) = l

abbrev pub is_before : Bytes → Bytes → Bool
is_before bound k = is_lt (compare_bytes k bound)

-- `ahead` is what a cursor shows at its position and after it, `back` what it shows at its position
-- and before it, nearest first.
pub record BTreeG : Type 1 where
  pub Tree : Type 0
  pub Cursor : Type 0
  pub items : Tree → Iter
  pub new_tree : Tree
  pub set_item : Tree → Bytes → Slice → Tree
  pub get_item : Tree → Bytes → Option Slice
  pub delete_item : Tree → Bytes → Tree
  -- `none` is the nil tree.
  pub copy_tree : Option Tree → Result Tree
  pub all : Cursor → Iter
  pub ahead : Cursor → Iter
  pub back : Cursor → Iter
  pub iter : Tree → Cursor
  pub first : Cursor → Bool × Cursor
  pub last : Cursor → Bool × Cursor
  pub seek : Bytes → Cursor → Bool × Cursor
  pub next_item : Cursor → Bool × Cursor
  pub prev_item : Cursor → Bool × Cursor
  pub item : Cursor → Item
  pub items-IsSorted : (t : Tree) → IsSorted (direction true) (items t)
  pub items-new : items new_tree ≡ []
  pub find-set :
      (t : Tree) (k j : Bytes) (v : Slice)
      → find (direction true) j (items (set_item t k v))
        ≡ (if bytes_eq j k then some v else find (direction true) j (items t))
  pub find-delete :
      (t : Tree) (k j : Bytes)
      → find (direction true) j (items (delete_item t k))
        ≡ (if bytes_eq j k then none else find (direction true) j (items t))
  pub get_lem : (t : Tree) (k : Bytes) → get_item t k ≡ find (direction true) k (items t)
  pub copy_lem : (t : Tree) → (c : Tree) × (copy_tree (some t) ≡ ok c) × (items c ≡ items t)
  pub all-iter : (t : Tree) → all (iter t) ≡ items t
  pub first_lem : (c : Cursor) → ((first c).0 ≡ is_valid (all c)) × (ahead (first c).1 ≡ all c)
  pub last_lem :
      (c : Cursor) → ((last c).0 ≡ is_valid (all c)) × (back (last c).1 ≡ reverse (all c))
  -- `Seek` goes to the first item that is not before the key.
  pub seek_lem :
      (k : Bytes) (c : Cursor)
      → ((seek k c).0 ≡ is_valid (ahead (seek k c).1))
        × (ahead (seek k c).1 ≡ skip_while (is_before k) (all c))
        × (all (seek k c).1 ≡ all c)
        × ((seek k c).0 ≡ true
            → rest (back (seek k c).1) ≡ skip_while (λ j. not (is_before k j)) (reverse (all c)))
  pub next_lem :
      (c : Cursor)
      → (ahead (next_item c).1 ≡ rest (ahead c)) × ((next_item c).0 ≡ is_valid (rest (ahead c)))
  pub prev_lem :
      (c : Cursor)
      → (back (prev_item c).1 ≡ rest (back c)) × ((prev_item c).0 ≡ is_valid (rest (back c)))
  pub item-ahead : (c : Cursor) (x : Item) (l : Iter) → ahead c ≡ x ∷ l → item c ≡ x
  pub item-back : (c : Cursor) (x : Item) (l : Iter) → back c ≡ x ∷ l → item c ≡ x

-- `BTree`: a pointer to a tree, nil in the zero value.
module _ (b : BTreeG) where
  abbrev pub BTree : Type 0
  BTree = Option b.Tree

  abbrev pub new_btree : BTree
  new_btree = some b.new_tree

  unfoldable pub is_nil : BTree → Bool
  is_nil t = not (is_some t)

  -- `(start != nil && len(start) == 0) || (end != nil && len(end) == 0)`: `errKeyEmpty`, which the
  -- callers raise as a panic.
  unfoldable pub check_bounds : Slice → Slice → Result (Unit {0})
  check_bounds start end = guard (is_empty start || is_empty end) key_empty
