-- ===== src/MultiVersion/MvKv/View.antt =====
-- What a transaction sees through `VersionIndexedStore` of multiversion/mvkv.go.
use melodiasdk_io_store.Prelude.{
  if-false, ◌≡◌, refl, sym, ap, subst, ◌∙◌, Bool, false, not, ◌&&◌, List, [], ◌∷◌, ◌++◌, Option,
  none, some, ok, if◌then◌else◌, is_some, arith, Option-cases, Bool-cases, inl, inr,
}
use melodiasdk_io_store.Bytes.{Bytes, Slice, bytes_eq}
use melodiasdk_io_store.Bytes.Order.{compare_bytes_eq, compare_bytes_refl}
use melodiasdk_io_store.SyncMap.{load, store, load-store}
use melodiasdk_io_store.Types.KvStore.{KvStore}
use melodiasdk_io_store.Types.Validity.{IsKey, assert_valid_key_lem}
use melodiasdk_io_store.MultiVersion.ValueItem.{ValueItem, is_estimate}
use melodiasdk_io_store.MultiVersion.Tracker.{ReadSet}
use melodiasdk_io_store.MultiVersion.Interface.{MultiVersionStore}
use melodiasdk_io_store.MultiVersion.MvKv.{
  VersionIndexedStore, version_value, contains, vals_of, update_readset, get, get_cached,
  get_version, get_parent, parse_value_and_update_readset, set_value,
}

-- Each key was read with one value.
abbrev pub AllOnce : ReadSet → Type 0
AllOnce [] = Unit
AllOnce ((k, vs) ∷ m) = ((v : Slice) × (vs ≡ v ∷ [])) × AllOnce m

AllOnce-load :
    (k : Bytes) (vs : List Slice) (m : ReadSet)
    → AllOnce m
    → load k m ≡ some vs
    → (v : Slice) × (vs ≡ v ∷ [])
unfolding load
AllOnce-load k vs [] h e = absurd (ground arith)
AllOnce-load k vs ((j, ws) ∷ m) h e = elim (Bool-cases (bytes_eq k j)) [
  | inl t ↦ let (v, q) = h.0 in let same : vs ≡ ws = sym (ground arith) in (v, same ∙ q)
  | inr t ↦ AllOnce-load k vs m h.1 (ground arith)
]

AllOnce-store : (k : Bytes) (v : Slice) (m : ReadSet) → AllOnce m → AllOnce (store k (v ∷ []) m)
unfolding store
AllOnce-store k v [] h = ((v, refl), tt)
AllOnce-store k v ((j, ws) ∷ m) h = elim (Bool-cases (bytes_eq k j)) [
  | inl t ↦ rw t ((v, refl), h.1)
  | inr t ↦ rw t (h.0, AllOnce-store k v m h.1)
]

-- The value that the versions and the parent give.
abbrev pub value_of : Slice → Option ValueItem → Slice
value_of parent none = parent
value_of parent (some v) = version_value v

abbrev pub is_estimated : Option ValueItem → Bool
is_estimated none = false
is_estimated (some v) = is_estimate v

abbrev look : Option Slice → Option (List Slice) → Slice → Option ValueItem → Slice
look (some v) r parent found = v
look none (some []) parent found = none
look none (some (v ∷ l)) parent found = v
look none none parent found = value_of parent found

abbrev blocks : Option Slice → Option (List Slice) → Option ValueItem → Bool
blocks w r found = not (is_some w) && not (is_some r) && is_estimated found

pub blocks-unread :
    (w : Option Slice) (r : Option (List Slice)) (found : Option ValueItem) (b : Bool)
    → w ≡ none
    → r ≡ none
    → blocks w r found ≡ b
    → is_estimated found ≡ b
blocks-unread w r found b e q h =
    subst (λ x. blocks none x found ≡ b) q (subst (λ x. blocks x r found ≡ b) e h)

module _ (p : KvStore) (m : MultiVersionStore) where
  abbrev pub latest : VersionIndexedStore p m → Bytes → Option ValueItem
  latest s k = (m.latest_before_expansion s.multi_version_store s.transaction_index k).0

  -- Its own writes, then what it read before, then the latest version of an earlier transaction, then the
  -- parent.
  abbrev pub view : VersionIndexedStore p m → Bytes → Slice
  view s k = look (load k s.writeset) (load k s.readset) (p.view s.parent k) (latest s k)

  -- The key was neither written nor read, and an earlier transaction is to write it again.
  abbrev pub is_blocked : VersionIndexedStore p m → Bytes → Bool
  is_blocked s k = blocks (load k s.writeset) (load k s.readset) (latest s k)

  pub record IsOk (s : VersionIndexedStore p m) : Type 0 where
    pub parent_ok : p.IsOk s.parent
    pub versions_ok : m.IsOk s.multi_version_store
    pub once : AllOnce s.readset

  -- A read changes nothing that can be seen.
  pub record Shows (s : VersionIndexedStore p m) (s' : VersionIndexedStore p m) : Type 0 where
    pub is_ok : IsOk s'
    pub seen : (j : Bytes) → view s' j ≡ view s j
    pub blocked : (j : Bytes) → is_blocked s' j ≡ is_blocked s j
    pub same_writeset : s'.writeset ≡ s.writeset
    pub same_aborts : s'.abort_channel ≡ s.abort_channel

  Shows-refl : (s : VersionIndexedStore p m) → IsOk s → Shows s s
  Shows-refl s o = record {
    is_ok = o;
    seen = λ j. refl;
    blocked = λ j. refl;
    same_writeset = refl;
    same_aborts = refl;
  }

  update_readset-new :
      (s : VersionIndexedStore p m) (k : Bytes) (v : Slice)
      → load k s.readset ≡ none
      → update_readset p m k v s ≡ record s { readset = store k (v ∷ []) s.readset }
  unfolding update_readset
  update_readset-new s k v e =
      ap
        (λ o. record s {
          readset =
              store k (if contains v (vals_of o) then vals_of o else vals_of o ++ v ∷ []) s.readset;
        })
        e

  abbrev pub prepared : VersionIndexedStore p m → Bytes → m.State
  prepared s k = (m.latest_before_expansion s.multi_version_store s.transaction_index k).1

  -- The first read of a key that is not blocked.
  unfoldable pub read_first : VersionIndexedStore p m → Bytes → VersionIndexedStore p m
  read_first s k = record s {
    multi_version_store = prepared s k;
    readset = store k (value_of (p.view s.parent k) (latest s k) ∷ []) s.readset;
  }

  Shows-read :
      (s : VersionIndexedStore p m) (k : Bytes)
      → IsOk s
      → load k s.writeset ≡ none
      → load k s.readset ≡ none
      → is_estimated (latest s k) ≡ false
      → Shows s (read_first s k)
  unfolding read_first
  Shows-read s k o w r e = record {
    is_ok = record {
      parent_ok = o.parent_ok;
      versions_ok = (m.expansion_lem s.multi_version_store s.transaction_index k o.versions_ok).0;
      once = AllOnce-store k val s.readset o.once;
    };
    seen = λ j.
        rw
          (
            (m.expansion_lem s.multi_version_store s.transaction_index k o.versions_ok).2 j,
            load-store k j (val ∷ []) s.readset,
          )
          (seen_at j);
    blocked = λ j.
        rw
          (
            (m.expansion_lem s.multi_version_store s.transaction_index k o.versions_ok).2 j,
            load-store k j (val ∷ []) s.readset,
          )
          (blocked_at j);
    same_writeset = refl;
    same_aborts = refl;
  }
    where
      val : Slice
      val = value_of (p.view s.parent k) (latest s k)

      seen_at :
          (j : Bytes)
          → look
              (load j s.writeset)
              (if bytes_eq j k then some (val ∷ []) else load j s.readset)
              (p.view s.parent j)
              (latest s j)
            ≡ view s j
      seen_at j = elim (Bool-cases (bytes_eq j k)) [
        | inl t ↦
            let same : j ≡ k = compare_bytes_eq j k (ground arith) in rw t (rw same (rw (w, r)))
        | inr t ↦ rw t
      ]

      blocked_at :
          (j : Bytes)
          → blocks
              (load j s.writeset)
              (if bytes_eq j k then some (val ∷ []) else load j s.readset)
              (latest s j)
            ≡ is_blocked s j
      blocked_at j = elim (Bool-cases (bytes_eq j k)) [
        | inl t ↦
            let same : j ≡ k = compare_bytes_eq j k (ground arith) in rw t (rw same (rw (w, r, e)))
        | inr t ↦ rw t
      ]

  -- The three ways of `Get`.
  get_cached-written :
      (s : VersionIndexedStore p m) (k : Bytes) (v : Slice)
      → load k s.writeset ≡ some v
      → get_cached p m k s ≡ (ok v, s)
  unfolding get_cached
  get_cached-written s k v w = rw (get_cached, w)

  get_cached-read :
      (s : VersionIndexedStore p m) (k : Bytes) (v : Slice) (l : List Slice)
      → load k s.writeset ≡ none
      → load k s.readset ≡ some (v ∷ l)
      → get_cached p m k s ≡ (ok v, s)
  unfolding get_cached
  get_cached-read s k v l w r = rw (get_cached, w, r)

  pub get_cached-unread :
      (s : VersionIndexedStore p m) (k : Bytes)
      → load k s.writeset ≡ none
      → load k s.readset ≡ none
      → get_cached p m k s
        ≡ get_version p m k (latest s k) (record s { multi_version_store = prepared s k })
  unfolding get_cached
  get_cached-unread s k w r = rw (get_cached, w, r)

  get_version-first :
      (s : VersionIndexedStore p m) (k : Bytes) (found : Option ValueItem)
      → IsOk s
      → IsKey k
      → load k s.readset ≡ none
      → is_estimated found ≡ false
      → get_version p m k found (record s { multi_version_store = prepared s k }) ≡ (
        ok (value_of (p.view s.parent k) found),
        record s {
          multi_version_store = prepared s k;
          readset = store k (value_of (p.view s.parent k) found ∷ []) s.readset;
        },
      )
  unfolding get_version get_parent parse_value_and_update_readset
  get_version-first s k none o h r e =
      rw (get_version, get_parent, p.get_lem s.parent k o.parent_ok h)
        (ap (λ t. (ok (p.view s.parent k), t))
          (update_readset-new (record s { multi_version_store = prepared s k }) k
            (p.view s.parent k) r))
  get_version-first s k (some v) o h r e =
      if-false (is_estimate v) _ _ e
      ∙ (ap (λ t. (ok (version_value v), t))
          (update_readset-new (record s { multi_version_store = prepared s k }) k (version_value v)
            r))

  pub get-get_cached :
      (s : VersionIndexedStore p m) (k : Bytes) → IsKey k → get p m k s ≡ get_cached p m k s
  unfolding get
  get-get_cached s k h = rw (get, assert_valid_key_lem k h)

  -- The transaction keeps the value of a key: as a write or as the first value that it read.
  pub data Kept (s : VersionIndexedStore p m) (k : Bytes) (v : Slice) : Type 0 where
    by_write : load k s.writeset ≡ some v → Kept s k v
    by_read :
        (l : List Slice) → load k s.writeset ≡ none → load k s.readset ≡ some (v ∷ l) → Kept s k v

  -- What `Get` changes: nothing, or it adds a first read.
  pub data Effect (s : VersionIndexedStore p m) (k : Bytes) (s' : VersionIndexedStore p m)
      : Type 0 where
    unchanged : s' ≡ s → Effect s k s'
    first :
        load k s.readset ≡ none
        → is_estimated (latest s k) ≡ false
        → s' ≡ read_first s k
        → Effect s k s'

  get-Kept :
      (s : VersionIndexedStore p m) (k : Bytes) (v : Slice)
      → IsKey k
      → Kept s k v
      → get p m k s ≡ (ok v, s)
  get-Kept s k v h (by_write w) = get-get_cached s k h ∙ get_cached-written s k v w
  get-Kept s k v h (by_read l w r) = get-get_cached s k h ∙ get_cached-read s k v l w r

  pub get-cases :
      (s : VersionIndexedStore p m) (k : Bytes)
      → IsOk s
      → IsKey k
      → is_blocked s k ≡ false
      → (s' : VersionIndexedStore p m) × (get p m k s ≡ (ok (view s k), s'))
        × Shows s s'
        × Kept s' k (view s k)
        × Effect s k s'
  unfolding read_first
  get-cases s k o h b = elim (Option-cases (load k s.writeset)) [
    | inr (v, w) ↦
        let kept : Kept s k v = by_write w in
        rw w (s, get-Kept s k v h kept, Shows-refl s o, kept, unchanged refl)
    | inl w ↦ elim (Option-cases (load k s.readset)) [
      | inr (vs, r) ↦
          let (v, q) = AllOnce-load k vs s.readset o.once r in
          let kept : Kept s k v = by_read [] w (r ∙ ap some q) in
          rw (w, r, q) (s, get-Kept s k v h kept, Shows-refl s o, kept, unchanged refl)
      | inl r ↦
          let e : is_estimated (latest s k) ≡ false = blocks-unread _ _ (latest s k) false w r b in
          rw (w, r)
            (
              read_first s k,
              get-get_cached s k h
                  ∙ get_cached-unread s k w r
                  ∙ get_version-first s k (latest s k) o h r e,
              Shows-read s k o w r e,
              by_read [] w (load-store k k _ s.readset ∙ rw (compare_bytes_refl k)),
              first r e refl,
            )
    ]
  ]

  -- `Get` of a key that is not blocked, with a valid key, a parent and a multiversion store in order,
  -- returns what the transaction sees: its own writes, then what it read before, then the latest version of
  -- an earlier transaction, then the parent. What it sees, writes and aborts stays the same.
  pub get_lem :
      (s : VersionIndexedStore p m) (k : Bytes)
      → IsOk s
      → IsKey k
      → is_blocked s k ≡ false
      → (s' : VersionIndexedStore p m) × (get p m k s ≡ (ok (view s k), s')) × Shows s s'
  get_lem s k o h b = let (s', run, shows, kept, effect) = get-cases s k o h b in (s', run, shows)

  -- Reads are repeatable: once `Get` returned a value, it returns the same value again and changes nothing,
  -- whatever other transactions have made of the multiversion store and of the parent in between.
  pub get-repeatable :
      (s : VersionIndexedStore p m) (k : Bytes) (mvs : m.State) (parent : p.State)
      → IsOk s
      → IsKey k
      → is_blocked s k ≡ false
      → (s' : VersionIndexedStore p m) × (get p m k s ≡ (ok (view s k), s'))
        × (get p m k (record s' { multi_version_store = mvs; parent = parent })
            ≡ (ok (view s k), record s' { multi_version_store = mvs; parent = parent }))
  get-repeatable s k mvs parent o h b =
      let (s', run, shows, kept, effect) = get-cases s k o h b in
      (
        s',
        run,
        get-Kept (record s' { multi_version_store = mvs; parent = parent }) k (view s k) h
            (moved (view s k) s' kept),
      )
    where
      moved :
          (v : Slice) (s' : VersionIndexedStore p m)
          → Kept s' k v
          → Kept (record s' { multi_version_store = mvs; parent = parent }) k v
      moved v s' (by_write w) = by_write w
      moved v s' (by_read l w r) = by_read l w r

  -- `Set` of a valid key, and `Delete` as a write of nil, change what the transaction sees at that key alone;
  -- the key is never blocked afterwards. The value is not checked.
  pub set_value_lem :
      (s : VersionIndexedStore p m) (k : Bytes) (value : Slice)
      → IsOk s
      → IsKey k
      → (s' : VersionIndexedStore p m) × (set_value p m k value s ≡ (ok tt, s'))
        × IsOk s'
        × ((j : Bytes) → view s' j ≡ (if bytes_eq j k then value else view s j))
        × ((j : Bytes) → is_blocked s' j ≡ (not (bytes_eq j k) && is_blocked s j))
        × (s'.readset ≡ s.readset)
  unfolding set_value
  set_value_lem s k value o h = (
    record s { writeset = store k value s.writeset },
    rw (set_value, assert_valid_key_lem k h),
    record { parent_ok = o.parent_ok; versions_ok = o.versions_ok; once = o.once },
    λ j.
        rw (load-store k j value s.writeset)
          (elim (Bool-cases (bytes_eq j k)) [ inl t ↦ rw t | inr t ↦ rw t ]),
    λ j.
        rw (load-store k j value s.writeset)
          (elim (Bool-cases (bytes_eq j k)) [ inl t ↦ rw t | inr t ↦ rw t ]),
    refl,
  )
