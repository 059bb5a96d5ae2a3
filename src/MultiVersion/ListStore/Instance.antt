-- ===== src/MultiVersion/ListStore/Instance.antt =====
-- `ListStore` of multiversion/list_store.go as the multiversion store of a transaction.
use melodiasdk_io_store.Prelude.{
  ℕ, ◌+◌, ◌*◌, ◌-◌, ◌≡◌, refl, sym, ap, subst, ◌∙◌, Bool, true, false, Option, none, some, length,
  if◌then◌else◌, arith, leb, ltb, replicate, length-append, length-replicate, Option-cases,
  Bool-cases, inl, inr,
}
use melodiasdk_io_store.Bytes.{Bytes, bytes_eq}
use melodiasdk_io_store.Bytes.Order.{compare_bytes_eq}
use melodiasdk_io_store.Types.KvStore.{KvStore}
use melodiasdk_io_store.MultiVersion.ValueItem.{ValueItem}
use melodiasdk_io_store.MultiVersion.ListItem.{
  Slot, MultiVersionListItem, expand, scan_down, get_latest_before_index,
  get_latest_before_index_expansion,
}
use melodiasdk_io_store.MultiVersion.ShardedMap.{get, set_key}
use melodiasdk_io_store.MultiVersion.ShardedMap.Laws.{IsSharded, get-set_key, set_key-IsSharded}
use melodiasdk_io_store.MultiVersion.Interface.{MultiVersionStore}
use melodiasdk_io_store.MultiVersion.ListStore.{
  VersionMap, ListStore, latest_before, latest_before_expansion, new_key, set_writeset,
  set_estimated_writeset, set_readset, set_iterateset, read_item,
}

-- The expanded list has a slot for the index.
expand-room :
    (m : MultiVersionListItem) (index : ℕ) → leb (length (expand m index).value_list) index ≡ false
unfolding expand
expand-room m index = elim (Bool-cases (leb (length m.value_list) index)) [
  | inl e ↦ rw e (
      ground (
        arith,
        length-append m.value_list
            (replicate {A = Slot} ((index + 1 - length m.value_list) * 2) none),
        length-replicate {A = Slot} ((index + 1 - length m.value_list) * 2) none,
      ))
  | inr e ↦ rw e (rw e)
]

expand-fits :
    (m : MultiVersionListItem) (index : ℕ)
    → leb (length m.value_list) index ≡ false
    → expand m index ≡ m
unfolding expand
expand-fits m index e = rw e

-- After the expanding reader, both readers find what it found.
readers_agree :
    (m : MultiVersionListItem) (index : ℕ)
    → (get_latest_before_index (get_latest_before_index_expansion m index).1 index
        ≡ (get_latest_before_index_expansion m index).0)
      × ((get_latest_before_index_expansion (get_latest_before_index_expansion m index).1 index).0
          ≡ (get_latest_before_index_expansion m index).0)
unfolding get_latest_before_index get_latest_before_index_expansion
readers_agree m index = (
  rw (expand-room m index),
  ap (λ (x : MultiVersionListItem). scan_down (λ v. ltb v.index index) x.value_list index)
      (expand-fits (expand m index) index (expand-room m index)),
)

module _ (checksum : Bytes → ℕ) (p : KvStore) where
  read_item-set_key :
      {A : Type 0} (f : MultiVersionListItem → Option A) (sm : VersionMap) (k j : Bytes)
      (item : MultiVersionListItem)
      → IsSharded sm
      → read_item checksum f (set_key checksum sm k item) j
        ≡ (if bytes_eq j k then f item else read_item checksum f sm j)
  unfolding read_item
  read_item-set_key f sm k j item h = elim (Bool-cases (bytes_eq j k)) [
    | inl e ↦ rw (e, read_item, get-set_key checksum sm k j item h, e)
    | inr e ↦ rw (e, read_item, get-set_key checksum sm k j item h, e)
  ]

  abbrev expanded : ℕ → MultiVersionListItem → Option ValueItem
  expanded index item = (get_latest_before_index_expansion item index).0

  expansion-none :
      (s : ListStore checksum p) (index : ℕ) (k : Bytes)
      → get checksum s.shard_map k ≡ none
      → latest_before_expansion checksum p s index k ≡ (none, s)
  unfolding latest_before_expansion
  expansion-none s index k e = rw (latest_before_expansion, e)

  after_read : ListStore checksum p → ℕ → Bytes → MultiVersionListItem → ListStore checksum p
  after_read s index k item = record s {
    shard_map = set_key checksum s.shard_map k (get_latest_before_index_expansion item index).1;
  }

  expansion-some :
      (s : ListStore checksum p) (index : ℕ) (k : Bytes) (item : MultiVersionListItem)
      → get checksum s.shard_map k ≡ some item
      → latest_before_expansion checksum p s index k
        ≡ (expanded index item, after_read s index k item)
  unfolding latest_before_expansion after_read
  expansion-some s index k item e = rw (latest_before_expansion, e)

  read_item-known :
      {A : Type 0} (f : MultiVersionListItem → Option A) (sm : VersionMap) (k : Bytes)
      (item : MultiVersionListItem)
      → get checksum sm k ≡ some item
      → read_item checksum f sm k ≡ f item
  unfolding read_item
  read_item-known f sm k item e = rw (read_item, e)

  read_item-missing :
      {A : Type 0} (f : MultiVersionListItem → Option A) (sm : VersionMap) (k : Bytes)
      → get checksum sm k ≡ none
      → read_item checksum f sm k ≡ none
  unfolding read_item
  read_item-missing f sm k e = rw (read_item, e)

  -- What the expanding reader finds, without its change.
  expansion-found :
      (s : ListStore checksum p) (index : ℕ) (k : Bytes)
      → (latest_before_expansion checksum p s index k).0
        ≡ read_item checksum (expanded index) s.shard_map k
  expansion-found s index k = elim (Option-cases (get checksum s.shard_map k)) [
    | inl e ↦
        ap (λ x. x.0) (expansion-none s index k e)
        ∙ sym (read_item-missing (expanded index) s.shard_map k e)
    | inr (item, e) ↦
        ap (λ x. x.0) (expansion-some s index k item e)
        ∙ sym (read_item-known (expanded index) s.shard_map k item e)
  ]

  if-same : {A : Type 0} (b : Bool) (x y : A) → (b ≡ true → x ≡ y) → y ≡ (if b then x else y)
  if-same true x y h = sym (h refl)
  if-same false x y h = refl

  if-ap :
      {A : Type 0} (b : Bool) (x x' y y' : A)
      → x ≡ x'
      → y ≡ y'
      → (if b then x else y) ≡ (if b then x' else y')
  if-ap true x x' y y' e q = e
  if-ap false x x' y y' e q = q

  -- The laws that a transaction relies on, for the list store.
  abbrev ExpansionLaw :
      ListStore checksum p → ℕ → Bytes → Option ValueItem × ListStore checksum p → Type 0
  ExpansionLaw s index k r =
      IsSharded r.1.shard_map
      × ((j : Bytes)
          → latest_before checksum p r.1 index j
            ≡ (if bytes_eq j k then r.0 else latest_before checksum p s index j))
      × ((j : Bytes)
          → (latest_before_expansion checksum p r.1 index j).0
            ≡ (latest_before_expansion checksum p s index j).0)

  pub expansion_law :
      (s : ListStore checksum p) (index : ℕ) (k : Bytes)
      → IsSharded s.shard_map
      → ExpansionLaw s index k (latest_before_expansion checksum p s index k)
  unfolding latest_before after_read
  expansion_law s index k h = elim (Option-cases (get checksum s.shard_map k)) [
    | inl e ↦ subst (ExpansionLaw s index k) (sym (expansion-none s index k e)) (
      h,
      λ j. if-same (bytes_eq j k) none _ (λ t.
          let same : j ≡ k = compare_bytes_eq j k (ground arith) in
          sym (read_item-missing _ s.shard_map j (ap (get checksum s.shard_map) same ∙ e))),
      λ j. refl,
    )
    | inr (item, e) ↦
        let item' = (get_latest_before_index_expansion item index).1 in
        let (agree, again) = readers_agree item index in
        subst (ExpansionLaw s index k) (sym (expansion-some s index k item e)) (
          set_key-IsSharded checksum s.shard_map k item' h,
          λ j.
              read_item-set_key (λ x. get_latest_before_index x index) s.shard_map k j item' h
              ∙ if-ap (bytes_eq j k) _ _ _ _ agree refl,
          λ j.
              expansion-found (after_read s index k item) index j
              ∙ read_item-set_key (expanded index) s.shard_map k j item' h
              ∙ if-ap (bytes_eq j k) _ _ _ _ again refl
              ∙ sym (
                  if-same (bytes_eq j k) (expanded index item)
                    (read_item checksum (expanded index) s.shard_map j)
                    (λ t.
                      let same : j ≡ k = compare_bytes_eq j k (ground arith) in
                      sym (
                        read_item-known (expanded index) s.shard_map j item
                          (ap (get checksum s.shard_map) same ∙ e))))
              ∙ sym (expansion-found s index j),
        )
  ]

  -- `ListStore` as the multiversion store of a transaction.
  abbrev pub list_versions : MultiVersionStore
  list_versions = record {
    State = ListStore checksum p;
    IsOk = λ s. IsSharded s.shard_map;
    latest_before = latest_before checksum p;
    latest_before_expansion = latest_before_expansion checksum p;
    new_key = new_key checksum p;
    set_writeset = set_writeset checksum p;
    set_estimated_writeset = set_estimated_writeset checksum p;
    set_readset = set_readset checksum p;
    set_iterateset = set_iterateset checksum p;
    expansion_lem = expansion_law;
  }
