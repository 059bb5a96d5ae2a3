-- ===== src/CacheKv/MemIterator.antt =====
-- cachekv/internal/memiterator.go: the iterator over the tree of cached entries.
pub mod Range
use melodiasdk_io_store.Prelude.{
  ℕ, zero, suc, Bool, true, false, [], ◌∷◌, none, some, Result, ok, panic, guard, not, ◌>>=◌, ◌>>◌,
  iterator_invalid, no_fuel, if◌then◌else◌,
}
use melodiasdk_io_store.Bytes.{Bytes, Slice}
use melodiasdk_io_store.Iterator.{Item, Iter}
use melodiasdk_io_store.CacheKv.BTree.{BTreeG, check_bounds, is_before}

module _ (b : BTreeG) where
  pub record MemIterator : Type 0 where
    pub iter : b.Cursor
    pub start : Slice
    pub end : Slice
    pub ascending : Bool
    pub valid : Bool

  -- The two tests of `keyInRange`, each for its direction.
  unfoldable pub in_range : Bool → Slice → Slice → Bytes → Bool
  in_range true start none k = true
  in_range true start (some e) k = is_before e k
  in_range false none end k = true
  in_range false (some s) end k = not (is_before s k)

  -- Where `newMemIterator` puts the cursor.
  unfoldable pub start_cursor : Slice → Slice → b.Cursor → Bool → Bool × b.Cursor
  start_cursor (some s) end c true = b.seek s c
  start_cursor none end c true = b.first c
  start_cursor start (some e) c false =
      let (found, c') = b.seek e c in if found then b.prev_item c' else b.last c'
  start_cursor start none c false = b.last c

  abbrev pub check_range : Bool → Slice → Slice → Bool × b.Cursor → MemIterator
  check_range asc start end (v, c) = record {
    iter = c;
    start = start;
    end = end;
    ascending = asc;
    valid = if v then in_range asc start end (b.item c).0 else false;
  }

  unfoldable pub new_mem_iterator : Slice → Slice → b.Tree → Bool → MemIterator
  new_mem_iterator start end items asc =
      check_range asc start end (start_cursor start end (b.iter items) asc)

  unfoldable pub next : MemIterator → Result MemIterator
  next m = do
    guard (not m.valid) iterator_invalid
    ok (
        check_range m.ascending m.start m.end
          (if m.ascending then b.next_item m.iter else b.prev_item m.iter))

  -- The entries that a caller's loop over the iterator visits.
  unfoldable pub entries : ℕ → MemIterator → Result Iter
  entries zero m = panic no_fuel
  entries (suc f) m =
      let more = (do m' ← next m; l ← entries f m'; ok (b.item m.iter ∷ l)) in
      if m.valid then more else ok []

  -- `BTree.Iterator` and `BTree.ReverseIterator`
  unfoldable pub btree_iterator : Slice → Slice → b.Tree → Bool → Result MemIterator
  btree_iterator start end t asc = do
    check_bounds b start end
    ok (new_mem_iterator start end t asc)
