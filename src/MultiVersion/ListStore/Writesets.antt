-- ===== src/MultiVersion/ListStore/Writesets.antt =====
-- What SetWriteset, SetEstimatedWriteset and InvalidateWriteset of multiversion/list_store.go change.
use melodiasdk_io_store.Prelude.{
  ℕ, ◌≡◌, refl, sym, ap, subst, ◌∙◌, Bool, true, false, not, ◌&&◌, ◌||◌, List, [], ◌∷◌, Option,
  none, some, ok, if◌then◌else◌, is_some, arith, ◌==◌, ltb, Bool-cases, inl, inr, get_elem?, set,
  get_elem?-set_self, get_elem?-set_ne, get_elem?-lt, ◌≢◌,
}
use melodiasdk_io_store.Bytes.{Bytes, bytes_eq}
use melodiasdk_io_store.Bytes.Order.{compare_bytes_eq}
use melodiasdk_io_store.SyncMap.{IsMap, load}
use melodiasdk_io_store.Types.KvStore.{KvStore}
use melodiasdk_io_store.MultiVersion.ValueItem.{new_estimate_item}
use melodiasdk_io_store.MultiVersion.ListItem.{Slot}
use melodiasdk_io_store.MultiVersion.ShardedMap.Laws.{IsSharded}
use melodiasdk_io_store.MultiVersion.Tracker.{WriteSet}
use melodiasdk_io_store.MultiVersion.ListStore.{
  VersionMap, VersionStoreIndexKeys, ListStore, remove_keys, write_items, estimate_keys,
  set_writeset, set_new_writeset, keys_at, set_writeset_keys, remove_old_writeset,
  set_estimated_writeset, invalidate_writeset, sort_keys, keys_of,
}
use melodiasdk_io_store.MultiVersion.ListStore.View.{
  written_item, IsWritable, Fits, HasSlot, versions, size, remove_key-kept, remove_key_lem,
  write_item_lem, estimate_key_lem,
}

abbrev pub has_key : Bytes → List Bytes → Bool
has_key k [] = false
has_key k (j ∷ l) = bytes_eq k j || has_key k l

-- Every old key has a slot for the index, where it has a list; every new key has one, and a value that
-- passes the check.
abbrev pub AllFit : (Bytes → Option ℕ) → ℕ → List Bytes → Type 0
AllFit n index [] = Unit
AllFit n index (k ∷ l) = Fits index (n k) × AllFit n index l

abbrev pub AllHaveSlot : (Bytes → Option ℕ) → ℕ → List Bytes → Type 0
AllHaveSlot n index [] = Unit
AllHaveSlot n index (k ∷ l) = HasSlot index (n k) × AllHaveSlot n index l

abbrev pub AllWritable : WriteSet → Type 0
AllWritable [] = Unit
AllWritable ((k, v) ∷ m) = IsWritable v × AllWritable m

module _ (checksum : Bytes → ℕ) where
  -- Each key's version at the index is changed by `f`, all else is as before.
  pub record Changes (m : VersionMap) (index : ℕ) (f : Bytes → Slot → Slot) (m' : VersionMap)
      : Type 0 where
    pub sharded : IsSharded m'
    pub shown :
        (k : Bytes) (j : ℕ)
        → versions checksum m' k j
          ≡ (if j == index then f k (versions checksum m k j) else versions checksum m k j)
    pub sized : size checksum m' ≡ size checksum m

  Changes-nothing : (m : VersionMap) (index : ℕ) → IsSharded m → Changes m index (λ k s. s) m
  Changes-nothing m index h = record { sharded = h; shown = λ k j. ground arith; sized = refl }

  abbrev cleared : WriteSet → List Bytes → Bytes → Slot → Slot
  cleared writeset keys k s = if has_key k keys && not (is_some (load k writeset)) then none else s

  abbrev overwritten : ℕ → ℕ → WriteSet → Bytes → Slot → Slot
  overwritten index incarnation writeset k s = elim (load k writeset) [
    | some v ↦ some (written_item index incarnation v)
    | none ↦ s
  ]

  abbrev pub estimated : ℕ → ℕ → List Bytes → Bytes → Slot → Slot
  estimated index incarnation keys k s =
      if has_key k keys then some (new_estimate_item index incarnation) else s

  remove_keys_lem :
      (index : ℕ) (writeset : WriteSet) (keys : List Bytes) (m : VersionMap)
      → IsSharded m
      → AllFit (size checksum m) index keys
      → (m' : VersionMap) × (remove_keys checksum index writeset m keys ≡ ok m')
        × Changes m index (cleared writeset keys) m'
  unfolding remove_keys
  remove_keys_lem index writeset [] m h f = (m, refl, Changes-nothing m index h)
  remove_keys_lem index writeset (k ∷ keys) m h f = elim (Bool-cases (is_some (load k writeset))) [
    | inl kept ↦
        let (m', run, c) = remove_keys_lem index writeset keys m h f.1 in
        (
          m',
          rw (remove_key-kept checksum index writeset m k kept) run,
          record {
            sharded = c.sharded;
            shown = λ j i. c.shown j i ∙ ground (arith, compare_bytes_eq j k);
            sized = c.sized;
          },
        )
    | inr gone ↦
        let (m1, run1, w) = remove_key_lem checksum index writeset m k h gone f.0 in
        let (m', run, c) =
          remove_keys_lem index writeset keys m1 w.sharded
            (subst (λ n. AllFit n index keys) (sym w.sized) f.1) in
        (
          m',
          rw (run1, run),
          record {
            sharded = c.sharded;
            shown = λ j i. c.shown j i ∙ ground (arith, w.shown j i, compare_bytes_eq j k);
            sized = c.sized ∙ w.sized;
          },
        )
  ]

  write_items_lem :
      (index incarnation : ℕ) (writeset : WriteSet) (m : VersionMap)
      → IsSharded m
      → IsMap writeset
      → AllWritable writeset
      → AllHaveSlot (size checksum m) index (keys_of writeset)
      → (m' : VersionMap) × (write_items checksum index incarnation m writeset ≡ ok m')
        × Changes m index (overwritten index incarnation writeset) m'
  unfolding write_items load
  write_items_lem index incarnation [] m h d v f = (m, refl, Changes-nothing m index h)
  write_items_lem index incarnation ((k, value) ∷ writeset) m h d v f =
      let (m1, run1, w) = write_item_lem checksum index incarnation m k value h v.0 f.0 in
      let (m', run, c) =
        write_items_lem index incarnation writeset m1 w.sharded d.1 v.1
          (subst (λ n. AllHaveSlot n index (keys_of writeset)) (sym w.sized) f.1) in
      (
        m',
        rw (run1, run),
        record {
          sharded = c.sharded;
          shown = λ j i. c.shown j i ∙ ground (arith, w.shown j i, compare_bytes_eq j k);
          sized = c.sized ∙ w.sized;
        },
      )

  estimate_keys_lem :
      (index incarnation : ℕ) (keys : List Bytes) (m : VersionMap)
      → IsSharded m
      → AllHaveSlot (size checksum m) index keys
      → (m' : VersionMap) × (estimate_keys checksum index incarnation m keys ≡ ok m')
        × Changes m index (estimated index incarnation keys) m'
  unfolding estimate_keys
  estimate_keys_lem index incarnation [] m h f = (m, refl, Changes-nothing m index h)
  estimate_keys_lem index incarnation (k ∷ keys) m h f =
      let (m1, run1, w) = estimate_key_lem checksum index incarnation m k h f.0 in
      let (m', run, c) =
        estimate_keys_lem index incarnation keys m1 w.sharded
          (subst (λ n. AllHaveSlot n index keys) (sym w.sized) f.1) in
      (
        m',
        rw (run1, run),
        record {
          sharded = c.sharded;
          shown = λ j i. c.shown j i ∙ ground (arith, w.shown j i);
          sized = c.sized ∙ w.sized;
        },
      )

load-has_key : (k : Bytes) (w : WriteSet) → is_some (load k w) ≡ has_key k (keys_of w)
unfolding load
load-has_key k [] = refl
load-has_key k ((j, v) ∷ w) = ground (arith, load-has_key k w)

-- The keys that the store keeps for a transaction. An empty write set leaves the old ones.
abbrev pub kept_keys : WriteSet → List Bytes → List Bytes
kept_keys [] old = old
kept_keys ((k, v) ∷ m) old = sort_keys (keys_of ((k, v) ∷ m))

module _ (checksum : Bytes → ℕ) (p : KvStore) where
  -- The lists of the old and the new keys have a slot for the index.
  pub record IsReady (s : ListStore checksum p) (index : ℕ) (old : VersionStoreIndexKeys)
      (writeset : WriteSet) : Type 0 where
    pub sharded : IsSharded s.shard_map
    pub known : get_elem? s.keys_list index ≡ some old
    pub old_fit : AllFit (size checksum s.shard_map) index old.tx_writeset_keys
    pub distinct : IsMap writeset
    pub writable : AllWritable writeset
    pub slots : AllHaveSlot (size checksum s.shard_map) index (keys_of writeset)

  -- The versions of the index are `f` of what they were, the others are as before, and the transaction has
  -- the given keys.
  pub record Updates (s : ListStore checksum p) (index : ℕ) (f : Bytes → Slot → Slot)
      (keys : VersionStoreIndexKeys) (s' : ListStore checksum p) : Type 0 where
    pub changes : Changes checksum s.shard_map index f s'.shard_map
    pub keys_kept : get_elem? s'.keys_list index ≡ some keys
    pub other_keys : (j : ℕ) → index ≢ j → get_elem? s'.keys_list j ≡ get_elem? s.keys_list j
    pub same_parent : s'.parent_store ≡ s.parent_store

  -- The versions after the old keys are removed, if they are, and after the new ones are written.
  abbrev pub replaced : Bool → ℕ → ℕ → WriteSet → List Bytes → Bytes → Slot → Slot
  replaced removes index incarnation writeset old k s = elim (load k writeset) [
    | some v ↦ some (written_item index incarnation v)
    | none ↦ if removes && has_key k old then none else s
  ]

  pub keys_at-known :
      (s : ListStore checksum p) (index : ℕ) (old : VersionStoreIndexKeys)
      → get_elem? s.keys_list index ≡ some old
      → keys_at checksum p s index ≡ ok old
  unfolding keys_at
  keys_at-known s index old e = rw (keys_at, e)

  put_keys-Updates :
      (s : ListStore checksum p) (index : ℕ) (f : Bytes → Slot → Slot) (m : VersionMap)
      (old : VersionStoreIndexKeys) (keys : List Bytes)
      → get_elem? s.keys_list index ≡ some old
      → Changes checksum s.shard_map index f m
      → (s' : ListStore checksum p) × (set_writeset_keys checksum p
            (record s { shard_map = m })
            index
            keys
          ≡ ok s')
        × Updates s index f (record old { tx_writeset_keys = keys }) s'
  unfolding set_writeset_keys
  put_keys-Updates s index f m old keys e c = (
    record s {
      shard_map = m;
      keys_list = set s.keys_list index (record old { tx_writeset_keys = keys });
    },
    rw (keys_at-known (record s { shard_map = m }) index old e),
    record {
      changes = c;
      keys_kept =
          get_elem?-set_self s.keys_list index (record old { tx_writeset_keys = keys })
            (get_elem?-lt s.keys_list index old e);
      other_keys = λ j ne. get_elem?-set_ne s.keys_list index j _ ne;
      same_parent = refl;
    },
  )

  same_keys-Updates :
      (s : ListStore checksum p) (index : ℕ) (f : Bytes → Slot → Slot) (m : VersionMap)
      (old : VersionStoreIndexKeys)
      → get_elem? s.keys_list index ≡ some old
      → Changes checksum s.shard_map index f m
      → Updates s index f old (record s { shard_map = m })
  same_keys-Updates s index f m old e c = record {
    changes = c;
    keys_kept = e;
    other_keys = λ j ne. refl;
    same_parent = refl;
  }

  -- One change after another.
  Changes-trans :
      (m m1 m2 : VersionMap) (index : ℕ) (f g h : Bytes → Slot → Slot)
      → Changes checksum m index f m1
      → Changes checksum m1 index g m2
      → ((k : Bytes) (s : Slot) → g k (f k s) ≡ h k s)
      → Changes checksum m index h m2
  Changes-trans m m1 m2 index f g h c d e = record {
    sharded = d.sharded;
    shown = λ k j. d.shown k j ∙ at_index (j == index) k j (c.shown k j);
    sized = d.sized ∙ c.sized;
  }
    where
      at_index :
          (b : Bool) (k : Bytes) (j : ℕ)
          → versions checksum m1 k j
            ≡ (if b then f k (versions checksum m k j) else versions checksum m k j)
          → (if b then g k (versions checksum m1 k j) else versions checksum m1 k j)
            ≡ (if b then h k (versions checksum m k j) else versions checksum m k j)
      at_index true k j q = ap (g k) q ∙ e k (versions checksum m k j)
      at_index false k j q = q

  removed :
      (s : ListStore checksum p) (index : ℕ) (old : VersionStoreIndexKeys) (writeset : WriteSet)
      (b : Bool)
      → IsReady s index old writeset
      → (m : VersionMap) × ((if b then remove_old_writeset checksum p s index writeset else ok s)
          ≡ ok (record s { shard_map = m }))
        × Changes checksum s.shard_map index
            (λ k o. if b then cleared checksum writeset old.tx_writeset_keys k o else o)
            m
  unfolding remove_old_writeset
  removed s index old writeset true r =
      let (m, run, c) =
        remove_keys_lem checksum index writeset old.tx_writeset_keys s.shard_map r.sharded
          r.old_fit in
      (m, rw (keys_at-known s index old r.known, run), c)
  removed s index old writeset false r =
      (s.shard_map, refl, Changes-nothing checksum s.shard_map index r.sharded)

  written :
      (s : ListStore checksum p) (index incarnation : ℕ) (old : VersionStoreIndexKeys)
      (writeset : WriteSet)
      → get_elem? s.keys_list index ≡ some old
      → IsSharded s.shard_map
      → IsMap writeset
      → AllWritable writeset
      → AllHaveSlot (size checksum s.shard_map) index (keys_of writeset)
      → (s' : ListStore checksum p) × (set_new_writeset checksum p s index incarnation writeset
          ≡ ok s')
        × Updates s index
            (overwritten checksum index incarnation writeset)
            (record old { tx_writeset_keys = kept_keys writeset old.tx_writeset_keys })
            s'
  unfolding set_new_writeset load
  written s index incarnation old [] e h d v f = (
    s,
    refl,
    same_keys-Updates s index (λ k o. o) s.shard_map old e
        (Changes-nothing checksum s.shard_map index h),
  )
  written s index incarnation old ((k, value) ∷ writeset) e h d v f =
      let (m, run, c) =
        write_items_lem checksum index incarnation ((k, value) ∷ writeset) s.shard_map h d v f in
      let (s', run', u) =
        put_keys-Updates s index (overwritten checksum index incarnation ((k, value) ∷ writeset)) m
          old (sort_keys (keys_of ((k, value) ∷ writeset))) e c in
      (s', rw (run, run'), u)

  -- `SetWriteset` where the lists of the keys have a slot for the transaction: it returns, the versions of
  -- the transaction are those of the write set, and what it wrote before is gone if its incarnation is not
  -- the first; the versions of all other transactions are as before. The keys of the write set are kept,
  -- but an empty one leaves the old keys.
  pub set_writeset_lem :
      (s : ListStore checksum p) (index incarnation total_task : ℕ) (old : VersionStoreIndexKeys)
      (writeset : WriteSet)
      → IsReady s index old writeset
      → (s' : ListStore checksum p) × (set_writeset checksum p s index incarnation writeset
            total_task
          ≡ ok s')
        × Updates s index
            (replaced (ltb 0 incarnation) index incarnation writeset old.tx_writeset_keys)
            (record old { tx_writeset_keys = kept_keys writeset old.tx_writeset_keys })
            s'
  unfolding set_writeset
  set_writeset_lem s index incarnation total_task old writeset r =
      let (m, run, c) = removed s index old writeset (ltb 0 incarnation) r in
      let (s', run', u) =
        written (record s { shard_map = m }) index incarnation old writeset r.known c.sharded
          r.distinct r.writable
          (subst (λ n. AllHaveSlot n index (keys_of writeset)) (sym c.sized) r.slots) in
      (
        s',
        rw (run, run'),
        record {
          changes =
              Changes-trans s.shard_map m s'.shard_map index _ _ _ c u.changes
                (λ k o. ground arith);
          keys_kept = u.keys_kept;
          other_keys = u.other_keys;
          same_parent = u.same_parent;
        },
      )

  -- `SetEstimatedWriteset`, on the same conditions: the transaction's versions are estimates for the keys of
  -- the write set, which are kept, and what it wrote before is gone.
  pub set_estimated_writeset_lem :
      (s : ListStore checksum p) (index incarnation : ℕ) (old : VersionStoreIndexKeys)
      (writeset : WriteSet)
      → IsReady s index old writeset
      → (s' : ListStore checksum p) × (set_estimated_writeset checksum p s index incarnation
            writeset
          ≡ ok s')
        × Updates s index
            (λ k o.
              if has_key k (keys_of writeset)
              then some (new_estimate_item index incarnation)
              else if has_key k old.tx_writeset_keys
              then none
              else o)
            (record old { tx_writeset_keys = sort_keys (keys_of writeset) })
            s'
  unfolding set_estimated_writeset
  set_estimated_writeset_lem s index incarnation old writeset r =
      let (m, run, c) = removed s index old writeset true r in
      let (m', run', c') =
        estimate_keys_lem checksum index incarnation (keys_of writeset) m c.sharded
          (subst (λ n. AllHaveSlot n index (keys_of writeset)) (sym c.sized) r.slots) in
      let c'' =
        Changes-trans s.shard_map m m' index _ _
          (λ k o.
            if has_key k (keys_of writeset)
            then some (new_estimate_item index incarnation)
            else if has_key k old.tx_writeset_keys
            then none
            else o)
          c c' (λ k o. ground (arith, load-has_key k writeset)) in
      let (s', run'', u) =
        put_keys-Updates s index _ m' old (sort_keys (keys_of writeset)) r.known c'' in
      (s', rw (run, run', run''), u)

  -- `InvalidateWriteset` where the lists of the kept keys have a slot for the transaction: its versions are
  -- estimates for the kept keys, and nothing else changes.
  pub invalidate_writeset_lem :
      (s : ListStore checksum p) (index incarnation total_task : ℕ) (old : VersionStoreIndexKeys)
      → IsSharded s.shard_map
      → get_elem? s.keys_list index ≡ some old
      → AllHaveSlot (size checksum s.shard_map) index old.tx_writeset_keys
      → (s' : ListStore checksum p) × (invalidate_writeset checksum p s index incarnation total_task
          ≡ ok s')
        × Updates s index (estimated checksum index incarnation old.tx_writeset_keys) old s'
  unfolding invalidate_writeset
  invalidate_writeset_lem s index incarnation total_task old h e f =
      let (m, run, c) =
        estimate_keys_lem checksum index incarnation old.tx_writeset_keys s.shard_map h f in
      (
        record s { shard_map = m },
        rw (keys_at-known s index old e, run),
        same_keys-Updates s index (estimated checksum index incarnation old.tx_writeset_keys) m old
            e c,
      )
