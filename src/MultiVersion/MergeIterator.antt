-- ===== src/MultiVersion/MergeIterator.antt =====
-- multiversion/mergeiterator.go: the iterator that merges a parent iterator with the keys of an iterator over a memDB,
-- whose values are read when they are asked for (memIterator and validationIterator of multiversion/memiterator.go):
-- `read` is that iterator's Value and `note` the UpdateReadSet of the handler, on an object of type `S`.
pub mod Simulation
pub mod Iterate
pub mod Validation
pub mod Check
pub mod Verdict
use melodiasdk_io_store.Prelude.{
  ℕ, zero, suc, ◌+◌, Ordering, Bool, true, false, List, [], ◌∷◌, Option, none, some, Result, ok,
  panic, iterator_invalid, no_fuel, length, if◌then◌else◌,
}
use melodiasdk_io_store.Bytes.{Bytes, Slice}
use melodiasdk_io_store.Bytes.Order.{compare_dir}
use melodiasdk_io_store.Method.{Method, pure, raise, continue, ◌>>=◌}
use melodiasdk_io_store.Iterator.{Item, Iter, is_valid, iter_key, iter_value, iter_next}
use melodiasdk_io_store.CacheKv.Merge.{before, Side, at_parent, at_cache, at_both}

pub record MvsMergeIterator : Type 0 where
  pub parent : Iter
  pub cache : List Bytes
  pub ascending : Bool

abbrev pub has_key : List Bytes → Bool
has_key [] = false
has_key (k ∷ c) = true

-- The iterator that the three-way switch of `Next`, `Key` and `Value` is about.
abbrev pub side : Bool → Iter → List Bytes → Side
side asc [] c = at_cache
side asc (x ∷ p) [] = at_parent
side asc ((kp, vp) ∷ p) (kc ∷ c) = elim (compare_dir asc kp kc) [
  | Ordering.lt ↦ at_parent
  | Ordering.eq ↦ at_both
  | Ordering.gt ↦ at_cache
]

abbrev pub head_key : List Bytes → Result Bytes
head_key [] = panic iterator_invalid
head_key (k ∷ c) = ok k

abbrev pub rest_keys : List Bytes → Result (List Bytes)
rest_keys [] = panic iterator_invalid
rest_keys (k ∷ c) = ok c

abbrev pub pick_key : Side → Iter → List Bytes → Result Bytes
pick_key at_cache p c = head_key c
pick_key at_parent p c = iter_key p
pick_key at_both p c = iter_key p

abbrev pub pair : Result Iter → Result (List Bytes) → Result (Iter × List Bytes)
pair (ok p) (ok c) = ok (p, c)
pair (ok p) (panic e) = panic e
pair (panic e) c = panic e

abbrev pub advance : Side → Iter → List Bytes → Result (Iter × List Bytes)
advance at_cache p c = pair (ok p) (rest_keys c)
advance at_parent p c = pair (iter_next p) (ok c)
advance at_both p c = pair (iter_next p) (rest_keys c)

module _ (S : Type 0) (read : Bytes → Method S Slice) (note : Bytes → Slice → S → S) where
  -- A result that needs no reading.
  abbrev pub lift : {A : Type 0} → Result A → Method S A
  lift r s = (r, s)

  unfoldable pub skip_cache_deletes : Bool → Slice → List Bytes → Method S (List Bytes)
  skip_cache_deletes asc until [] = pure []
  skip_cache_deletes asc until (k ∷ c) =
      let rest = skip_cache_deletes asc until c in
      read k >>= λ value. elim value [
        | some w ↦ pure (k ∷ c)
        | none ↦ if before asc k until then rest else pure (k ∷ c)
      ]

  -- The loop: its result is the returned flag, and the two iterators as it leaves them.
  unfoldable pub skip_until : ℕ → Bool → Iter → List Bytes → Method S (Bool × Iter × List Bytes)
  skip_until zero asc p c = raise no_fuel
  skip_until (suc f) asc [] c = skip_cache_deletes asc none c >>= λ c'. pure (has_key c', [], c')
  skip_until (suc f) asc ((kp, vp) ∷ p) [] = pure (true, (kp, vp) ∷ p, [])
  skip_until (suc f) asc ((kp, vp) ∷ p) (kc ∷ c) = elim (compare_dir asc kp kc) [
    | Ordering.lt ↦ pure (true, (kp, vp) ∷ p, kc ∷ c)
    | Ordering.eq ↦ read kc >>= λ value. elim value [
      | none ↦ skip_until f asc p c
      | some w ↦ pure (true, (kp, vp) ∷ p, kc ∷ c)
    ]
    | Ordering.gt ↦ read kc >>= λ value. elim value [
      | none ↦
          skip_cache_deletes asc (some kp) (kc ∷ c) >>= λ c'. skip_until f asc ((kp, vp) ∷ p) c'
      | some w ↦ pure (true, (kp, vp) ∷ p, kc ∷ c)
    ]
  ]

  unfoldable pub skip_until_exists_or_invalid :
      MvsMergeIterator → Method S (Bool × MvsMergeIterator)
  unfolding skip_until
  skip_until_exists_or_invalid it =
      skip_until (suc (length it.cache)) it.ascending it.parent it.cache >>= λ r.
      pure (r.0, record it { parent = r.1; cache = r.2 })

  -- `assertValid`, by way of `Error` and `Valid`.
  unfoldable pub assert_valid : MvsMergeIterator → Method S MvsMergeIterator
  unfolding skip_until_exists_or_invalid
  assert_valid it =
      skip_until_exists_or_invalid it >>= λ r. if r.0 then pure r.1 else raise iterator_invalid

  -- The first two lines of `Next`, `Key` and `Value`.
  unfoldable pub settle : MvsMergeIterator → Method S MvsMergeIterator
  unfolding skip_until_exists_or_invalid assert_valid
  settle it = skip_until_exists_or_invalid it >>= λ r. assert_valid r.1

  unfoldable pub next : MvsMergeIterator → Method S MvsMergeIterator
  unfolding settle
  next it = settle it >>= λ it'.
      lift (advance (side it'.ascending it'.parent it'.cache) it'.parent it'.cache) >>= λ r.
      pure (record it' { parent = r.0; cache = r.1 })

  unfoldable pub key : MvsMergeIterator → Method S (Bytes × MvsMergeIterator)
  unfolding settle
  key it = settle it >>= λ it'.
      lift (pick_key (side it'.ascending it'.parent it'.cache) it'.parent it'.cache) >>= λ k.
      pure (k, it')

  -- A value of the parent is noted.
  abbrev pub noted : Iter → Method S Slice
  noted [] s = (panic iterator_invalid, s)
  noted ((k, v) ∷ p) s = (ok v, note k v s)

  abbrev pub read_first : List Bytes → Method S Slice
  read_first [] = raise iterator_invalid
  read_first (k ∷ c) = read k

  abbrev pub pick_value : Side → Iter → List Bytes → Method S Slice
  pick_value at_cache p c = read_first c
  pick_value at_parent p c = noted p
  pick_value at_both p c = read_first c

  unfoldable pub value : MvsMergeIterator → Method S (Slice × MvsMergeIterator)
  unfolding settle
  value it = settle it >>= λ it'.
      pick_value (side it'.ascending it'.parent it'.cache) it'.parent it'.cache >>= λ v.
      pure (v, it')

  -- A caller's loop `for ; it.Valid(); it.Next() { … it.Key(), it.Value() … }`.
  unfoldable pub collect : ℕ → MvsMergeIterator → Method S (List Item)
  unfolding skip_until_exists_or_invalid key value next
  collect zero it = raise no_fuel
  collect (suc f) it =
      let rest = collect f in
      skip_until_exists_or_invalid it >>= λ r.
      if r.0
      then (key r.1 >>= λ x.
          value x.1 >>= λ y. next y.1 >>= λ it'. rest it' >>= λ l. pure ((x.0, y.0) ∷ l))
      else pure []
