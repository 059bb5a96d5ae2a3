-- ===== src/MultiVersion/ListStore/Readsets.antt =====
-- The validation of read sets in multiversion/list_store.go, and the keys that an iteration collects.
use melodiasdk_io_store.Prelude.{
  ℕ, zero, suc, ◌<◌, ◌≡◌, ◌↔◌, refl, sym, ap, subst, ◌∙◌, Bool, true, false, not, ◌&&◌, ◌||◌, List,
  [], ◌∷◌, ◌++◌, Option, none, some, ok, if◌then◌else◌, is_some, arith, ◌==◌, ltb, Bool-cases, inl,
  inr, get_elem?,
}
use melodiasdk_io_store.Bytes.{Bytes, Slice}
use melodiasdk_io_store.Types.Validity.{IsKey}
use melodiasdk_io_store.Types.KvStore.{KvStore}
use melodiasdk_io_store.MultiVersion.ValueItem.{ValueItem}
use melodiasdk_io_store.MultiVersion.Tracker.{ReadSet}
use melodiasdk_io_store.MultiVersion.ListStore.{
  VersionStoreIndexKeys, ListStore, latest_before, slice_eq, check_value, check_entry,
  check_entries, check_readset_at_index, add_index, add_conflict, collect_iterator_items,
}
use melodiasdk_io_store.MultiVersion.ListStore.Writesets.{has_key, keys_at-known}

-- A value that was read is what the latest version, or else the parent, gives now. Behind an estimate
-- nothing is decided yet.
pub data IsCurrent (parent value : Slice) (latest : Option ValueItem) : Type 0 where
  unwritten : latest ≡ none → slice_eq parent value ≡ true → IsCurrent parent value latest
  estimated : (v : ValueItem) → latest ≡ some v → v.estimate ≡ true → IsCurrent parent value latest
  deleted :
      (v : ValueItem)
      → latest ≡ some v
      → v.estimate ≡ false
      → v.value ≡ none
      → value ≡ none
      → IsCurrent parent value latest
  written :
      (v : ValueItem) (w : Bytes)
      → latest ≡ some v
      → v.estimate ≡ false
      → v.value ≡ some w
      → slice_eq (some w) value ≡ true
      → IsCurrent parent value latest

-- Each key was read once, and its value is current.
abbrev pub AllCurrent : (Bytes → Slice) → (Bytes → Option ValueItem) → ReadSet → Type 0
AllCurrent parent latest [] = Unit
AllCurrent parent latest ((k, vs) ∷ m) =
    ((v : Slice) × (vs ≡ v ∷ []) × IsCurrent (parent k) v (latest k)) × AllCurrent parent latest m

abbrev pub AllKeys : ReadSet → Type 0
AllKeys [] = Unit
AllKeys ((k, vs) ∷ m) = IsKey k × AllKeys m

-- Strictly ascending.
abbrev pub IsAscending : List ℕ → Type 0
IsAscending [] = Unit
IsAscending (i ∷ []) = Unit
IsAscending (i ∷ j ∷ l) = (i < j) × IsAscending (j ∷ l)

-- The answer of `check_value` for an entry behind a version.
abbrev pub matches : Slice → ValueItem → Bool
matches v x = x.estimate || (if is_some x.value then slice_eq x.value v else not (is_some v))

-- The version that an entry conflicts with: an estimate, or one with another value.
abbrev conflict : Slice → Option ValueItem → Option ℕ
conflict v none = none
conflict v (some x) = if x.estimate || not (matches v x) then some x.index else none

pub matches-IsCurrent :
    (parent v : Slice) (x : ValueItem) → (matches v x ≡ true) ↔ IsCurrent parent v (some x)
matches-IsCurrent parent v x = (found x.estimate x.value refl refl, back)
  where
    opt_matches : Option ValueItem → Bool
    opt_matches none = true
    opt_matches (some z) = matches v z

    found :
        (b : Bool) (w : Slice)
        → x.estimate ≡ b
        → x.value ≡ w
        → matches v x ≡ true
        → IsCurrent parent v (some x)
    found true w e q m = estimated x refl e
    found false none e q m = deleted x refl e q (ground arith)
    found false (some y) e q m = written x y refl e q (ground arith)

    back : IsCurrent parent v (some x) → matches v x ≡ true
    back (unwritten e q) = absurd (ground arith)
    back (estimated y e q) = subst (λ o. opt_matches o ≡ true) (sym e) (ground arith)
    back (deleted y e q r t) = subst (λ o. opt_matches o ≡ true) (sym e) (ground arith)
    back (written y w e q r t) = subst (λ o. opt_matches o ≡ true) (sym e) (ground arith)

module _ (checksum : Bytes → ℕ) (p : KvStore) where
  check_value_lem :
      (s : ListStore checksum p) (k : Bytes) (v : Slice) (latest : Option ValueItem)
      → p.IsOk s.parent_store
      → IsKey k
      → (b : Bool) × (check_value checksum p s k v latest ≡ ok (b, conflict v latest))
        × ((b ≡ true) ↔ IsCurrent (p.view s.parent_store k) v latest)
  unfolding check_value
  check_value_lem s k v none o h = (
    slice_eq (p.view s.parent_store k) v,
    rw (p.get_lem s.parent_store k o h),
    (λ e. unwritten refl e, λ c. unwritten_of c),
  )
    where
      unwritten_of :
          IsCurrent (p.view s.parent_store k) v none → slice_eq (p.view s.parent_store k) v ≡ true
      unwritten_of (unwritten e q) = q
      unwritten_of (estimated x e q) = absurd (ground arith)
      unwritten_of (deleted x e q r t) = absurd (ground arith)
      unwritten_of (written x w e q r t) = absurd (ground arith)
  check_value_lem s k v (some x) o h = (
    matches v x,
    run x.estimate x.value refl refl,
    matches-IsCurrent (p.view s.parent_store k) v x,
  )
    where
      run :
          (b : Bool) (w : Slice)
          → x.estimate ≡ b
          → x.value ≡ w
          → check_value checksum p s k v (some x) ≡ ok (matches v x, conflict v (some x))
      run b w e q = ground arith

-- The indices of the conflicts of a read set.
abbrev pub member : ℕ → List ℕ → Bool
member i [] = false
member i (j ∷ l) = i == j || member i l

member-add_index : (i j : ℕ) (l : List ℕ) → member i (add_index j l) ≡ (i == j || member i l)
unfolding add_index
member-add_index i j [] = refl
member-add_index i j (x ∷ l) = ground (arith, member-add_index i j l)

-- The first is below every other.
abbrev IsBelow : ℕ → List ℕ → Type 0
IsBelow i [] = Unit
IsBelow i (j ∷ l) = i < j

IsAscending-cons : (i : ℕ) (l : List ℕ) → IsBelow i l → IsAscending l → IsAscending (i ∷ l)
IsAscending-cons i [] b a = tt
IsAscending-cons i (j ∷ l) b a = (b, a)

IsAscending-tail : (i : ℕ) (l : List ℕ) → IsAscending (i ∷ l) → IsBelow i l × IsAscending l
IsAscending-tail i [] a = (tt, tt)
IsAscending-tail i (j ∷ l) a = a

IsBelow-add_index : (i j : ℕ) (l : List ℕ) → i < j → IsBelow i l → IsBelow i (add_index j l)
unfolding add_index
IsBelow-add_index i j [] h b = h
IsBelow-add_index i j (x ∷ l) h b = elim (Bool-cases (j == x)) [
  | inl e ↦ rw e b
  | inr e ↦ elim (Bool-cases (ltb j x)) [ inl f ↦ rw (e, f) h | inr f ↦ rw (e, f) b ]
]

add_index-IsAscending : (j : ℕ) (l : List ℕ) → IsAscending l → IsAscending (add_index j l)
unfolding add_index
add_index-IsAscending j [] a = tt
add_index-IsAscending j (x ∷ l) a = elim (Bool-cases (j == x)) [
  | inl e ↦ rw e a
  | inr e ↦ elim (Bool-cases (ltb j x)) [
    | inl f ↦ rw (e, f) (ground arith, a)
    | inr f ↦
        let (b, t) = IsAscending-tail x l a in
        rw (e, f)
          (IsAscending-cons x (add_index j l) (IsBelow-add_index x j l (ground arith) b)
            (add_index-IsAscending j l t))
  ]
]

-- Whether an entry that was read once is behind a version at the index that is an estimate or holds
-- another value.
abbrev pub is_conflict : ℕ → Slice → Option ValueItem → Bool
is_conflict i v none = false
is_conflict i v (some x) = i == x.index && (x.estimate || not (matches v x))

abbrev pub has_conflict : ℕ → (Bytes → Option ValueItem) → ReadSet → Bool
has_conflict i latest [] = false
has_conflict i latest ((k, v ∷ []) ∷ m) = is_conflict i v (latest k) || has_conflict i latest m
has_conflict i latest ((k, vs) ∷ m) = has_conflict i latest m

member-add_conflict :
    (checksum : Bytes → ℕ) (p : KvStore) (i : ℕ) (v : Slice) (latest : Option ValueItem)
    (l : List ℕ)
    → member i (add_conflict checksum p (conflict v latest) l)
      ≡ (is_conflict i v latest || member i l)
member-add_conflict checksum p i v none l = refl
member-add_conflict checksum p i v (some x) l =
    elim (Bool-cases (x.estimate || not (matches v x))) [
      | inl e ↦ rw (e, member-add_index i x.index l) (ground arith)
      | inr e ↦ rw e (ground arith)
    ]

add_conflict-IsAscending :
    (checksum : Bytes → ℕ) (p : KvStore) (c : Option ℕ) (l : List ℕ)
    → IsAscending l
    → IsAscending (add_conflict checksum p c l)
add_conflict-IsAscending checksum p none l a = a
add_conflict-IsAscending checksum p (some i) l a = add_index-IsAscending i l a

both :
    (parent : Bytes → Slice) (latest : Bytes → Option ValueItem) (k : Bytes) (v : Slice)
    (m : ReadSet) (b c : Bool)
    → (b ≡ true) ↔ IsCurrent (parent k) v (latest k)
    → (c ≡ true) ↔ AllCurrent parent latest m
    → ((b && c) ≡ true) ↔ AllCurrent parent latest ((k, v ∷ []) ∷ m)
both parent latest k v m b c q r = (
  λ e. ((v, refl, q.0 (ground arith)), r.0 (ground arith)),
  λ (w, a).
      let (x, e, d) = w in
      let same : x ≡ v = sym (ground arith) in
      rw (q.1 (subst (λ y. IsCurrent (parent k) y (latest k)) same d), r.1 a),
)

module _ (checksum : Bytes → ℕ) (p : KvStore) where
  check_entries_lem :
      (s : ListStore checksum p) (index : ℕ) (readset : ReadSet)
      → p.IsOk s.parent_store
      → AllKeys readset
      → (b : Bool) × (l : List ℕ) × (check_entries checksum p s index readset ≡ ok (b, l))
        × ((b ≡ true)
            ↔ AllCurrent (p.view s.parent_store) (latest_before checksum p s index) readset)
        × IsAscending l
        × ((i : ℕ) → member i l ≡ has_conflict i (latest_before checksum p s index) readset)
  unfolding check_entries check_entry
  check_entries_lem s index [] o h = (true, [], refl, (λ e. tt, λ u. refl), tt, λ i. refl)
  check_entries_lem s index ((k, []) ∷ m) o (h, hs) =
      let (b, l, run, q, a, c) = check_entries_lem s index m o hs in
      (
        false,
        l,
        rw run,
        (λ e. absurd (ground arith), λ u. let (w, e, c) = u.0 in absurd (ground arith)),
        a,
        c,
      )
  check_entries_lem s index ((k, v ∷ []) ∷ m) o (h, hs) =
      let (b, l, run, q, a, c) = check_entries_lem s index m o hs in
      let (b0, run0, q0) =
        check_value_lem checksum p s k v (latest_before checksum p s index k) o h in
      (
        b0 && b,
        add_conflict checksum p (conflict v (latest_before checksum p s index k)) l,
        rw (run0, run),
        both (p.view s.parent_store) (latest_before checksum p s index) k v m b0 b q0 q,
        add_conflict-IsAscending checksum p (conflict v (latest_before checksum p s index k)) l a,
        λ i.
            member-add_conflict checksum p i v (latest_before checksum p s index k) l
            ∙ ap (λ x. is_conflict i v (latest_before checksum p s index k) || x) (c i),
      )
  check_entries_lem s index ((k, v ∷ w ∷ vs) ∷ m) o (h, hs) =
      let (b, l, run, q, a, c) = check_entries_lem s index m o hs in
      (
        false,
        l,
        rw run,
        (λ e. absurd (ground arith), λ u. let (w, e, c) = u.0 in absurd (ground arith)),
        a,
        c,
      )

  -- `checkReadsetAtIndex` with a parent in order and valid keys returns. Its answer is true exactly if each
  -- key was read once and the value that was read is what the latest version of an earlier transaction
  -- gives now, or the parent where there is none, or that version is an estimate. The conflicts are in
  -- strictly ascending order: they are the indices of the versions that are estimates or hold another value.
  pub check_readset_at_index_lem :
      (s : ListStore checksum p) (index : ℕ) (keys : VersionStoreIndexKeys)
      → p.IsOk s.parent_store
      → get_elem? s.keys_list index ≡ some keys
      → AllKeys keys.readset
      → (b : Bool) × (l : List ℕ) × (check_readset_at_index checksum p s index ≡ ok (b, l))
        × ((b ≡ true)
            ↔ AllCurrent (p.view s.parent_store) (latest_before checksum p s index) keys.readset)
        × IsAscending l
        × ((i : ℕ) → member i l ≡ has_conflict i (latest_before checksum p s index) keys.readset)
  unfolding check_readset_at_index
  check_readset_at_index_lem s index keys o e h =
      let (b, l, run, q, a, c) = check_entries_lem s index keys.readset o h in
      (b, l, rw (check_readset_at_index, keys_at-known checksum p s index keys e) run, q, a, c)

  -- `CollectIteratorItems` reads the write set of the transaction itself in each round: after at least one
  -- round the tree has the keys that the transaction wrote and no others, whatever the transactions before
  -- it wrote; without a round it has none.
  pub collects_own :
      (s : ListStore checksum p) (index rounds : ℕ) (keys : VersionStoreIndexKeys)
      → get_elem? s.keys_list index ≡ some keys
      → (l : List Bytes) × (collect_iterator_items checksum p s index rounds ≡ ok l)
        × ((k : Bytes) → has_key k l ≡ (ltb 0 rounds && has_key k keys.tx_writeset_keys))
  unfolding collect_iterator_items
  collects_own s index zero keys e = ([], refl, λ k. refl)
  collects_own s index (suc n) keys e =
      let (l, run, q) = collects_own s index n keys e in
      (
        l ++ keys.tx_writeset_keys,
        rw (collect_iterator_items, run, keys_at-known checksum p s index keys e),
        λ k. has_key-++ k l keys.tx_writeset_keys ∙ ground (arith, q k),
      )
    where
      has_key-++ :
          (k : Bytes) (l m : List Bytes) → has_key k (l ++ m) ≡ (has_key k l || has_key k m)
      has_key-++ k [] m = refl
      has_key-++ k (j ∷ l) m = ground (arith, has_key-++ k l m)
