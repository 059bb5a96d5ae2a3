-- ===== src/MultiVersion/Store/Commit.antt =====
-- What `WriteLatestToStore`, `CollectIteratorItems` and `NewKey` of multiversion/store.go do.
use melodiasdk_io_store.Prelude.{
  ℕ, zero, suc, ◌<◌, ◌≡◌, ◌↔◌, refl, sym, ap, subst, ◌∙◌, Bool, true, false, ◌||◌, List, [], ◌∷◌,
  ◌++◌, Option, none, some, ok, panic, ◌>>=◌, if◌then◌else◌, is_some, arith, ◌==◌, Option-cases,
  Bool-cases, inl, inr, type_assertion,
}
use melodiasdk_io_store.Bytes.{Bytes, Slice, bytes_eq}
use melodiasdk_io_store.Bytes.Order.{compare_bytes_eq, compare_bytes_refl}
use melodiasdk_io_store.SyncMap.{load, load-store}
use melodiasdk_io_store.Types.KvStore.{KvStore}
use melodiasdk_io_store.Types.Validity.{IsKey}
use melodiasdk_io_store.MultiVersion.ValueItem.{ValueItem, is_estimate, is_deleted}
use melodiasdk_io_store.MultiVersion.Tracker.{WriteSet}
use melodiasdk_io_store.MultiVersion.ListStore.{keys_of, sort_keys}
use melodiasdk_io_store.MultiVersion.ListStore.View.{IsWritable}
use melodiasdk_io_store.MultiVersion.ListStore.Writesets.{has_key}
use melodiasdk_io_store.MultiVersion.ListStore.Keys.{
  Every, Every-sort_keys, has_key-sort_keys, is_some-load,
}
use melodiasdk_io_store.MultiVersion.Store.{
  MultiVersionValue, ValueMap, Store, load_at, write_version, write_key, write_keys,
  write_latest_to_store, collect_iterator_items, new_key, get_latest_of, latest_before, read_value,
  as_value, load_or_store, write_value, write_items, change, set_writeset, remove_old_writeset,
  new_item,
}

or_right : (a b : Bool) → (a || b) ≡ true → a ≡ false → b ≡ true
or_right a b e q = ground arith

or_true_right : (a b : Bool) → b ≡ true → (a || b) ≡ true
or_true_right a b q = ground arith

or_true_left : (a b : Bool) → a ≡ true → (a || b) ≡ true
or_true_left a b q = ground arith

-- The value of a version replaces the old one.
abbrev written_over : Option ValueItem → Slice → Slice
written_over none old = old
written_over (some x) old = x.value

-- A version that can be written to the parent.
abbrev CanWrite : Option ValueItem → Type 0
CanWrite none = Unit
CanWrite (some x) = (is_estimate x ≡ false) × IsWritable x.value

module _ (v : MultiVersionValue) where
  -- What the entry of a key makes of the parent's value.
  abbrev pub committed : Option (Option v.State) → Slice → Slice
  committed none old = old
  committed (some none) old = old
  committed (some (some item)) old = written_over (v.get_latest_non_estimate item) old

  abbrev pub CanCommit : Option (Option v.State) → Type 0
  CanCommit none = Unit
  CanCommit (some none) = ⊥
  CanCommit (some (some item)) = CanWrite (v.get_latest_non_estimate item)

  committed-again :
      (e : Option (Option v.State)) (old : Slice) → committed e (committed e old) ≡ committed e old
  committed-again none old = refl
  committed-again (some none) old = refl
  committed-again (some (some item)) old = elim (Option-cases (v.get_latest_non_estimate item)) [
    | inl q ↦ rw q
    | inr (x, q) ↦ rw q
  ]

module _ (v : MultiVersionValue) (p : KvStore) (version_list : Bool) where
  write_version_lem :
      (parent : p.State) (k : Bytes) (found : Option ValueItem)
      → p.IsOk parent
      → IsKey k
      → CanWrite found
      → (parent' : p.State) × (write_version v p version_list parent k found ≡ ok parent')
        × p.IsOk parent'
        × ((j : Bytes)
            → p.view parent' j
              ≡ (if bytes_eq j k then written_over found (p.view parent j) else p.view parent j))
  unfolding write_version is_deleted is_estimate
  write_version_lem parent k none o h c = (parent, refl, o, λ j. ground arith)
  write_version_lem parent k (some x) o h c = by_value x.value refl
    where
      by_value :
          (w : Slice)
          → x.value ≡ w
          → (parent' : p.State) × (write_version v p version_list parent k (some x) ≡ ok parent')
            × p.IsOk parent'
            × ((j : Bytes) → p.view parent' j ≡ (if bytes_eq j k then x.value else p.view parent j))
      by_value none q =
          let (parent', run, o', view) = p.delete_lem parent k o h in
          (parent', rw (c.0, q) run, o', λ j. view j ∙ rw q)
      by_value (some b) q =
          let (parent', run, o', view) = p.set_lem parent k b o h (subst IsWritable q c.1) in
          (parent', rw (c.0, q) run, o', λ j. view j ∙ rw q)

  write_key_lem :
      (m : ValueMap v) (parent : p.State) (k : Bytes)
      → p.IsOk parent
      → IsKey k
      → CanCommit v (load k m)
      → (parent' : p.State) × (write_key v p version_list m parent k ≡ ok parent')
        × p.IsOk parent'
        × ((j : Bytes)
            → p.view parent' j ≡ (
                if bytes_eq j k then committed v (load k m) (p.view parent j) else p.view parent j))
  unfolding write_key read_value as_value
  write_key_lem m parent k o h c = elim (Option-cases (load k m)) [
    | inl q ↦ (parent, rw (write_key, read_value, q) refl, o, λ j. rw q (ground arith))
    | inr (none, q) ↦ absurd (subst (CanCommit v) q c)
    | inr (some item, q) ↦
        let (parent', run, o', view) =
          write_version_lem parent k (v.get_latest_non_estimate item) o h
            (subst (CanCommit v) q c) in
        (parent', rw (write_key, read_value, q) run, o', λ j. rw q (view j))
  ]

  write_keys_lem :
      (m : ValueMap v) (parent : p.State) (keys : List Bytes)
      → p.IsOk parent
      → Every (λ k. IsKey k × CanCommit v (load k m)) keys
      → (parent' : p.State) × (write_keys v p version_list m parent keys ≡ ok parent')
        × p.IsOk parent'
        × ((j : Bytes)
            → p.view parent' j ≡ (
                if has_key j keys
                then committed v (load j m) (p.view parent j)
                else p.view parent j))
  unfolding write_keys
  write_keys_lem m parent [] o h = (parent, refl, o, λ j. refl)
  write_keys_lem m parent (k ∷ keys) o h =
      let (parent1, run1, o1, view1) = write_key_lem m parent k o h.0.0 h.0.1 in
      let (parent2, run2, o2, view2) = write_keys_lem m parent1 keys o1 h.1 in
      (parent2, rw run1 run2, o2, λ j. view2 j ∙ rw (view1 j) (twice j))
    where
      twice :
          (j : Bytes)
          → (if has_key j keys
              then committed v (load j m) (
                  if bytes_eq j k
                  then committed v (load k m) (p.view parent j)
                  else p.view parent j)
              else (if bytes_eq j k
                  then committed v (load k m) (p.view parent j)
                  else p.view parent j))
            ≡ (if bytes_eq j k || has_key j keys
                then committed v (load j m) (p.view parent j)
                else p.view parent j)
      twice j = elim (Bool-cases (bytes_eq j k)) [
        | inl t ↦
            let same : j ≡ k = compare_bytes_eq j k (ground arith) in
            rw t (rw same (rw (committed-again v (load k m) (p.view parent k)) (ground arith)))
        | inr t ↦ rw t
      ]

  -- `WriteLatestToStore` with a parent in order, valid keys, no nil entry, and latest versions, as the items give them, that are no estimates and have valid
  -- values returns. The parent then shows, for each key with a version that is no estimate, the latest such
  -- version, a deleted one as no value; it shows all else as before.
  pub write_latest_to_store_lem :
      (s : Store v p version_list)
      → p.IsOk s.parent_store
      → Every
          (λ k. IsKey k × CanCommit v (load k s.multi_version_map))
          (keys_of s.multi_version_map)
      → (parent : p.State) × (write_latest_to_store v p version_list s
          ≡ ok (record s { parent_store = parent }))
        × p.IsOk parent
        × ((j : Bytes)
            → p.view parent j ≡ committed v (load j s.multi_version_map) (p.view s.parent_store j))
  unfolding write_latest_to_store
  write_latest_to_store_lem s o h =
      let (parent, run, o', view) =
        write_keys_lem s.multi_version_map s.parent_store (sort_keys (keys_of s.multi_version_map))
          o (Every-sort_keys _ (keys_of s.multi_version_map) h) in
      (parent, rw run, o', λ j. view j ∙ all_keys j)
    where
      all_keys :
          (j : Bytes)
          → (if has_key j (sort_keys (keys_of s.multi_version_map))
              then committed v (load j s.multi_version_map) (p.view s.parent_store j)
              else p.view s.parent_store j)
            ≡ committed v (load j s.multi_version_map) (p.view s.parent_store j)
      all_keys j = elim (Option-cases (load j s.multi_version_map)) [
        | inl q ↦ rw q (ground arith)
        | inr (e, q) ↦
            let there : has_key j (sort_keys (keys_of s.multi_version_map)) ≡ true =
              has_key-sort_keys j (keys_of s.multi_version_map)
              ∙ sym (is_some-load j s.multi_version_map)
              ∙ ap is_some q in
            rw there
      ]

  -- The keys of the write set of one transaction.
  abbrev pub keys_of_index : Store v p version_list → ℕ → List Bytes
  keys_of_index s i = elim (load_at i s.tx_writeset_keys) [ some keys ↦ keys | none ↦ [] ]

  has_key-++ : (k : Bytes) (l m : List Bytes) → has_key k (l ++ m) ≡ (has_key k l || has_key k m)
  has_key-++ k [] m = refl
  has_key-++ k (j ∷ l) m = ground (arith, has_key-++ k l m)

  -- `CollectIteratorItems` collects exactly the keys that some transaction below the index wrote.
  pub collect_iterator_items_lem :
      (s : Store v p version_list) (index : ℕ) (k : Bytes)
      → (has_key k (collect_iterator_items v p version_list s index) ≡ true)
        ↔ ((i : ℕ) × (i < index) × (has_key k (keys_of_index s i) ≡ true))
  unfolding collect_iterator_items
  collect_iterator_items_lem s zero k =
      (λ e. absurd (ground arith), λ w. absurd (omega (arith, w.1)))
  collect_iterator_items_lem s (suc n) k =
      let (there, back) = collect_iterator_items_lem s n k in
      let split : has_key k (collect_iterator_items v p version_list s (suc n)) ≡ (
          has_key k (collect_iterator_items v p version_list s n)
          || has_key k (keys_of_index s n)) =
        has_key-++ k (collect_iterator_items v p version_list s n) (keys_of_index s n) in
      (
        λ e. elim (Bool-cases (has_key k (collect_iterator_items v p version_list s n))) [
          | inl q ↦ let (i, lt, h) = there q in (i, omega (arith, lt), h)
          | inr q ↦ (n, omega arith, or_right _ _ (sym split ∙ e) q)
        ],
        λ (i, lt, h). split ∙ elim (Bool-cases (i == n)) [
          | inl q ↦
              let same : i ≡ n = ground arith in
              or_true_right _ _ (subst (λ x. has_key k (keys_of_index s x) ≡ true) same h)
          | inr q ↦ or_true_left _ _ (back (i, ground arith, h))
        ],
      )

module _ (v : MultiVersionValue) (p : KvStore) where
  new_entry :
      (s : Store v p false) (k : Bytes) (total_task : ℕ)
      → load k s.multi_version_map ≡ none
      → load k (new_key v p false s k total_task).multi_version_map ≡ some none
  unfolding new_key
  new_entry s k total_task e =
      rw e (load-store k k none s.multi_version_map ∙ rw (compare_bytes_refl k))

  new_key-tx_writeset_keys :
      (s : Store v p false) (k : Bytes) (n : ℕ)
      → (new_key v p false s k n).tx_writeset_keys ≡ s.tx_writeset_keys
  unfolding new_key
  new_key-tx_writeset_keys s k n = elim (Bool-cases (is_some (load k s.multi_version_map))) [
    | inl t ↦ rw t
    | inr t ↦ rw t
  ]

  known :
      (item : v.State) (m : ValueMap v) (k : Bytes)
      → load k m ≡ some none
      → load_or_store v item m k ≡ none
  known item m k e = rw (load_or_store, e)

  poisoned_writes :
      (item : v.State) (m : ValueMap v) (k : Bytes) (value : Slice) (rest : WriteSet)
      (index incarnation : ℕ)
      → load k m ≡ some none
      → write_items v item index incarnation m ((k, value) ∷ rest) ≡ panic type_assertion
  unfolding write_items change as_value
  poisoned_writes item m k value rest index incarnation e =
      ap
        (λ o. change v (write_value v index incarnation value) m k o >>= λ m'.
          write_items v item index incarnation m' rest)
        (known item m k e)

  first_writes :
      (t : Store v p false) (k : Bytes) (value : Slice) (rest : WriteSet) (n index incarnation : ℕ)
      → load k t.multi_version_map ≡ some none
      → load_at index t.tx_writeset_keys ≡ none
      → set_writeset v p false t index incarnation ((k, value) ∷ rest) n ≡ panic type_assertion
  unfolding set_writeset remove_old_writeset
  first_writes t k value rest n index incarnation q r =
      rw (set_writeset, remove_old_writeset, r)
        (rw (
          poisoned_writes (new_item v p false n) t.multi_version_map k value rest index incarnation
            q))

  -- A new key without `versionList` gets a nil entry: the readers of the key then panic on the type
  -- assertion, and so does the first write set of a transaction that starts with the key.
  pub new_key_poisons :
      (s : Store v p false) (k : Bytes) (value : Slice) (rest : WriteSet)
      (total_task index incarnation : ℕ)
      → load k s.multi_version_map ≡ none
      → load_at index s.tx_writeset_keys ≡ none
      → (get_latest_of v p false (new_key v p false s k total_task) k ≡ panic type_assertion)
        × (latest_before v p false (new_key v p false s k total_task) index k
            ≡ panic type_assertion)
        × (set_writeset v p false
              (new_key v p false s k total_task)
              index
              incarnation
              ((k, value) ∷ rest)
              total_task
            ≡ panic type_assertion)
  unfolding get_latest_of latest_before read_value as_value
  new_key_poisons s k value rest total_task index incarnation e f =
      let entry = new_entry s k total_task e in
      (
        rw (get_latest_of, read_value, entry),
        rw (latest_before, read_value, entry),
        first_writes (new_key v p false s k total_task) k value rest total_task index incarnation
            entry (ap (load_at index) (new_key-tx_writeset_keys s k total_task) ∙ f),
      )
