-- ===== src/CacheKv/Merge.antt =====
-- cachekv/internal/mergeiterator.go: the iterator that merges a parent iterator with a cache iterator
-- whose nil values are deletions. The loops of `skipUntilExistsOrInvalid` take fuel; one more than
-- the entries of the cache is enough.
pub mod Settle
pub mod Collect
use melodiasdk_io_store.Prelude.{
  ℕ, zero, suc, ◌+◌, Ordering, Bool, true, false, List, [], ◌∷◌, Option, none, some, Result, ok,
  panic, iterator_invalid, no_fuel, guard, ◌>>=◌, ◌>>◌, not, length, if◌then◌else◌,
}
use melodiasdk_io_store.Bytes.{Bytes, Slice, is_lt}
use melodiasdk_io_store.Bytes.Order.{compare_dir}
use melodiasdk_io_store.Iterator.{Item, Iter, is_valid, iter_key, iter_value, iter_next}

pub record CacheMergeIterator : Type 0 where
  pub parent : Iter
  pub cache : Iter
  pub ascending : Bool
  pub valid : Bool

-- `until == nil || iter.compare(key, until) < 0`
abbrev pub before : Bool → Bytes → Slice → Bool
before asc key none = true
before asc key (some until) = is_lt (compare_dir asc key until)

unfoldable pub skip_cache_deletes : Bool → Slice → Iter → Iter
skip_cache_deletes asc until [] = []
skip_cache_deletes asc until ((k, some v) ∷ c) = (k, some v) ∷ c
skip_cache_deletes asc until ((k, none) ∷ c) =
    let rest = skip_cache_deletes asc until c in if before asc k until then rest else (k, none) ∷ c

-- The loop: its result is the returned flag, and the two iterators as it leaves them.
unfoldable pub skip_until : ℕ → Bool → Iter → Iter → Result (Bool × Iter × Iter)
skip_until zero asc p c = panic no_fuel
skip_until (suc f) asc [] c = let c' = skip_cache_deletes asc none c in ok (is_valid c', [], c')
skip_until (suc f) asc ((kp, vp) ∷ p) [] = ok (true, (kp, vp) ∷ p, [])
skip_until (suc f) asc ((kp, vp) ∷ p) ((kc, vc) ∷ c) = elim (compare_dir asc kp kc) [
  | Ordering.lt ↦ ok (true, (kp, vp) ∷ p, (kc, vc) ∷ c)
  | Ordering.eq ↦ elim vc [
    | none ↦ skip_until f asc p c
    | some w ↦ ok (true, (kp, vp) ∷ p, (kc, some w) ∷ c)
  ]
  | Ordering.gt ↦ elim vc [
    | none ↦ skip_until f asc ((kp, vp) ∷ p) (skip_cache_deletes asc (some kp) ((kc, none) ∷ c))
    | some w ↦ ok (true, (kp, vp) ∷ p, (kc, some w) ∷ c)
  ]
]

unfoldable pub skip_until_exists_or_invalid : CacheMergeIterator → Result CacheMergeIterator
skip_until_exists_or_invalid it = do
  (v, p, c) ← skip_until (suc (length it.cache)) it.ascending it.parent it.cache
  ok (record { parent = p; cache = c; ascending = it.ascending; valid = v })

unfoldable pub new_cache_merge_iterator : Iter → Iter → Bool → Result CacheMergeIterator
unfolding skip_until_exists_or_invalid
new_cache_merge_iterator parent cache ascending =
    skip_until_exists_or_invalid
      (record { parent = parent; cache = cache; ascending = ascending; valid = false })

abbrev assert_valid : CacheMergeIterator → Result (Unit {0})
assert_valid it = guard (not it.valid) iterator_invalid

-- The iterator that the three-way switch of `Next`, `Key` and `Value` is about.
pub data Side : Type 0 where
  at_parent at_cache at_both : Side

abbrev pub side : Bool → Iter → Iter → Side
side asc [] c = Side.at_cache
side asc (x ∷ p) [] = Side.at_parent
side asc ((kp, vp) ∷ p) ((kc, vc) ∷ c) = elim (compare_dir asc kp kc) [
  | Ordering.lt ↦ Side.at_parent
  | Ordering.eq ↦ Side.at_both
  | Ordering.gt ↦ Side.at_cache
]

abbrev pub advance : Side → Iter → Iter → Result (Iter × Iter)
advance Side.at_cache p c = do c' ← iter_next c; ok (p, c')
advance Side.at_parent p c = do p' ← iter_next p; ok (p', c)
advance Side.at_both p c = do p' ← iter_next p; c' ← iter_next c; ok (p', c')

unfoldable pub next : CacheMergeIterator → Result CacheMergeIterator
unfolding skip_until_exists_or_invalid
next it = do
  assert_valid it
  (p, c) ← advance (side it.ascending it.parent it.cache) it.parent it.cache
  skip_until_exists_or_invalid (record it { parent = p; cache = c })

abbrev pub pick_key : Side → Iter → Iter → Result Bytes
pick_key Side.at_cache p c = iter_key c
pick_key Side.at_parent p c = iter_key p
pick_key Side.at_both p c = iter_key p

unfoldable pub key : CacheMergeIterator → Result Bytes
key it = do assert_valid it; pick_key (side it.ascending it.parent it.cache) it.parent it.cache

abbrev pub pick_value : Side → Iter → Iter → Result Slice
pick_value Side.at_cache p c = iter_value c
pick_value Side.at_parent p c = iter_value p
pick_value Side.at_both p c = iter_value c

unfoldable pub value : CacheMergeIterator → Result Slice
value it = do assert_valid it; pick_value (side it.ascending it.parent it.cache) it.parent it.cache

-- A caller's loop `for ; it.Valid(); it.Next() { … it.Key(), it.Value() … }`.
unfoldable pub collect : ℕ → CacheMergeIterator → Result (List Item)
collect zero it = panic no_fuel
collect (suc f) it =
    let more = (do
      k ← key it
      v ← value it
      it' ← next it
      rest ← collect f it'
      ok ((k, v) ∷ rest)) in
    if it.valid then more else ok []

unfoldable pub collect_all : CacheMergeIterator → Result Iter
collect_all it = collect (suc (length it.parent + length it.cache)) it
