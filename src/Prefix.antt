-- ===== src/Prefix.antt =====
-- prefix/store.go: a store that sees the keys of its parent that have a prefix, without it.
pub mod Keys
pub mod Writes
pub mod Iterate
use melodiasdk_io_store.Prelude.{
  ℕ, zero, suc, Bool, true, false, List, [], ◌∷◌, ◌++◌, Option, none, some, Result, ok, panic,
  ◌>>=◌, ◌>>◌, length, drop, ltb, not, ◌&&◌, ◌||◌, if◌then◌else◌, guard, nil_key, should_not_happen,
  iterator_invalid, no_fuel, is_some,
}
use melodiasdk_io_store.Bytes.{Bytes, Slice, has_prefix, bytes_eq}
use melodiasdk_io_store.Iterator.{Iter, is_valid, iter_key, iter_value, iter_next}
use melodiasdk_io_store.Types.KvStore.{KvStore, or_empty}
use melodiasdk_io_store.Types.Validity.{assert_valid_key, assert_valid_value}
use melodiasdk_io_store.Types.Utils.{take, prefix_end_bytes}

unfoldable pub clone_append : Bytes → Slice → Bytes
clone_append bz tail = bz ++ or_empty tail

-- The new end of a range, which `Iterator` and `ReverseIterator` compute alike.
unfoldable pub range_end : Bytes → Slice → Slice
unfolding clone_append
range_end prefix none = prefix_end_bytes prefix
range_end prefix (some e) = some (clone_append prefix (some e))

unfoldable pub strip_prefix : Bytes → Bytes → Result Bytes
strip_prefix key prefix =
    if ltb (length key) (length prefix) || not (bytes_eq (take (length prefix) key) prefix)
    then panic should_not_happen
    else ok (drop (length prefix) key)

pub record PrefixIterator : Type 0 where
  pub prefix : Bytes
  pub start : Slice
  pub end : Slice
  pub iter : Iter
  pub valid : Bool

-- `iter.Valid() && bytes.HasPrefix(iter.Key(), prefix)`
abbrev pub head_has_prefix : Bytes → Iter → Bool
head_has_prefix prefix [] = false
head_has_prefix prefix ((k, v) ∷ l) = has_prefix k prefix

unfoldable pub new_prefix_iterator : Bytes → Slice → Slice → Iter → PrefixIterator
new_prefix_iterator prefix start end parent = record {
  prefix = prefix;
  start = start;
  end = end;
  iter = parent;
  valid = head_has_prefix prefix parent;
}

-- `Valid`
unfoldable pub iterator_valid : PrefixIterator → Bool
iterator_valid pi = pi.valid && is_valid pi.iter

unfoldable pub next : PrefixIterator → Result PrefixIterator
next pi = do
  guard (not pi.valid) iterator_invalid
  iter ← iter_next pi.iter
  ok (record pi { iter = iter; valid = if head_has_prefix pi.prefix iter then pi.valid else false })

-- `Key` of the iterator.
unfoldable pub iterator_key : PrefixIterator → Result Bytes
unfolding strip_prefix
iterator_key pi = do
  guard (not pi.valid) iterator_invalid
  key ← iter_key pi.iter
  strip_prefix key pi.prefix

-- `Value` of the iterator.
unfoldable pub iterator_value : PrefixIterator → Result Slice
iterator_value pi = do guard (not pi.valid) iterator_invalid; iter_value pi.iter

-- A caller's loop over the iterator.
unfoldable pub collect : ℕ → PrefixIterator → Result Iter
collect zero pi = panic no_fuel
collect (suc f) pi =
    let more = (do
      k ← iterator_key pi
      v ← iterator_value pi
      pi' ← next pi
      rest ← collect f pi'
      ok ((k, v) ∷ rest)) in
    if iterator_valid pi then more else ok []

unfoldable pub collect_all : PrefixIterator → Result Iter
collect_all pi = collect (suc (length pi.iter)) pi

module _ (p : KvStore) where
  pub record Store : Type 0 where
    pub parent : p.State
    pub prefix : Bytes

  unfoldable pub key : Store → Slice → Result Bytes
  key s none = panic nil_key
  key s (some k) = ok (clone_append s.prefix (some k))

  unfoldable pub get : Store → Slice → Result Slice
  get s k = do k' ← key s k; p.get s.parent k'

  -- The parent's `Has` is its `Get` compared with nil.
  unfoldable pub has : Store → Slice → Result Bool
  has s k = do k' ← key s k; v ← p.get s.parent k'; ok (is_some v)

  unfoldable pub set : Store → Slice → Slice → Result Store
  set s k value = do
    assert_valid_key (or_empty k)
    assert_valid_value value
    k' ← key s k
    parent ← p.set s.parent k' value
    ok (record s { parent = parent })

  unfoldable pub delete : Store → Slice → Result Store
  delete s k = do k' ← key s k; parent ← p.delete s.parent k'; ok (record s { parent = parent })

  -- `Iterator` if ascending, `ReverseIterator` if not.
  unfoldable pub iterator : Store → Slice → Slice → Bool → Result (PrefixIterator × Store)
  iterator s start end ascending = do
    (iter, parent) ←
        p.iterator s.parent (some (clone_append s.prefix start)) (range_end s.prefix end) ascending
    ok (new_prefix_iterator s.prefix start end iter, record s { parent = parent })
