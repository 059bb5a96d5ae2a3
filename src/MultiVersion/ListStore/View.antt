-- ===== src/MultiVersion/ListStore/View.antt =====
-- The versions that the map of multiversion/list_store.go holds, and what each round of its loops changes.
use melodiasdk_io_store.Prelude.{
  ℕ, ◌<◌, ◌≡◌, refl, ap, subst, ◌∙◌, fun_ext, true, false, ◌&&◌, [], Option, none, some, ok, length,
  if◌then◌else◌, is_some, arith, ◌==◌, Option-cases, Bool-cases, inl, inr, ◌≢◌,
}
use melodiasdk_io_store.Bytes.{Bytes, Slice, bytes_eq}
use melodiasdk_io_store.Bytes.Order.{compare_bytes_eq}
use melodiasdk_io_store.SyncMap.{load}
use melodiasdk_io_store.Types.Validity.{IsValue}
use melodiasdk_io_store.MultiVersion.ValueItem.{
  ValueItem, new_value_item, new_estimate_item, new_deleted_item,
}
use melodiasdk_io_store.MultiVersion.ListItem.{Slot, MultiVersionListItem, slot}
use melodiasdk_io_store.MultiVersion.ListItem.Writes.{Puts, writers_lem}
use melodiasdk_io_store.MultiVersion.ShardedMap.{get, set_key}
use melodiasdk_io_store.MultiVersion.ShardedMap.Laws.{IsSharded, get-set_key, set_key-IsSharded}
use melodiasdk_io_store.MultiVersion.Tracker.{WriteSet}
use melodiasdk_io_store.MultiVersion.ListStore.{
  VersionMap, remove_key, write_value, write_item, estimate_key,
}

-- The value of a write set as a version.
abbrev pub written_item : ℕ → ℕ → Slice → ValueItem
written_item index incarnation none = new_deleted_item index incarnation
written_item index incarnation (some v) = new_value_item index incarnation (some v)

abbrev pub IsWritable : Slice → Type 0
IsWritable none = Unit
IsWritable (some v) = IsValue v

abbrev slot_of : Option MultiVersionListItem → ℕ → Slot
slot_of none j = none
slot_of (some item) j = slot item.value_list j

abbrev size_of : Option MultiVersionListItem → Option ℕ
size_of none = none
size_of (some item) = some (length item.value_list)

-- The index has a slot, where there is a list at all; and there is a list with a slot for it.
abbrev pub Fits : ℕ → Option ℕ → Type 0
Fits index none = Unit
Fits index (some n) = index < n

abbrev pub HasSlot : ℕ → Option ℕ → Type 0
HasSlot index none = ⊥
HasSlot index (some n) = index < n

module _ (checksum : Bytes → ℕ) where
  -- The version of a key at an index, and the number of its slots.
  abbrev pub versions : VersionMap → Bytes → ℕ → Slot
  versions m key j = slot_of (get checksum m key) j

  abbrev pub size : VersionMap → Bytes → Option ℕ
  size m key = size_of (get checksum m key)

  -- The slot of one key at one index is written, and no other.
  pub record Writes (m : VersionMap) (index : ℕ) (key : Bytes) (s : Slot) (m' : VersionMap)
      : Type 0 where
    pub sharded : IsSharded m'
    pub shown :
        (k : Bytes) (j : ℕ)
        → versions m' k j ≡ (if bytes_eq k key && j == index then s else versions m k j)
    pub sized : size m' ≡ size m

  Writes-set_key :
      (m : VersionMap) (index : ℕ) (key : Bytes) (s : Slot) (item item' : MultiVersionListItem)
      → IsSharded m
      → get checksum m key ≡ some item
      → Puts item index s item'
      → Writes m index key s (set_key checksum m key item')
  Writes-set_key m index key s item item' h g w = record {
    sharded = set_key-IsSharded checksum m key item' h;
    shown = λ k j. ap (λ o. slot_of o j) (get-set_key checksum m key k item' h) ∙ at_key k j;
    sized = fun_ext (λ k. ap size_of (get-set_key checksum m key k item' h) ∙ size_at k);
  }
    where
      at_slot :
          (j : ℕ) → slot item'.value_list j ≡ (if j == index then s else slot item.value_list j)
      at_slot j = elim (Bool-cases (j == index)) [
        | inl e ↦ let same : j ≡ index = ground arith in rw (e, same) w.written
        | inr e ↦ let ne : index ≢ j = λ q. ground arith in rw e (w.others j ne)
      ]

      at_key :
          (k : Bytes) (j : ℕ)
          → slot_of (if bytes_eq k key then some item' else get checksum m k) j
            ≡ (if bytes_eq k key && j == index then s else versions m k j)
      at_key k j = elim (Bool-cases (bytes_eq k key)) [
        | inl e ↦
            let same : k ≡ key = compare_bytes_eq k key (ground arith) in
            rw e (rw same (rw g (at_slot j)))
        | inr e ↦ rw e
      ]

      size_at :
          (k : Bytes) → size_of (if bytes_eq k key then some item' else get checksum m k) ≡ size m k
      size_at k = elim (Bool-cases (bytes_eq k key)) [
        | inl e ↦
            let same : k ≡ key = compare_bytes_eq k key (ground arith) in
            rw e (rw same (rw g (ap some w.same_length)))
        | inr e ↦ rw e
      ]

  Writes-none :
      (m : VersionMap) (index : ℕ) (key : Bytes)
      → IsSharded m
      → get checksum m key ≡ none
      → Writes m index key none m
  Writes-none m index key h e = record { sharded = h; shown = λ k j. same k j; sized = refl }
    where
      same :
          (k : Bytes) (j : ℕ)
          → versions m k j ≡ (if bytes_eq k key && j == index then none else versions m k j)
      same k j = elim (Bool-cases (bytes_eq k key)) [
        | inl t ↦
            let q : k ≡ key = compare_bytes_eq k key (ground arith) in rw (q, e) (ground arith)
        | inr t ↦ rw t
      ]

  pub remove_key-kept :
      (index : ℕ) (writeset : WriteSet) (m : VersionMap) (key : Bytes)
      → is_some (load key writeset) ≡ true
      → remove_key checksum index writeset m key ≡ ok m
  unfolding remove_key
  remove_key-kept index writeset m key e = rw e

  -- A round for a key that is not written again clears its slot.
  pub remove_key_lem :
      (index : ℕ) (writeset : WriteSet) (m : VersionMap) (key : Bytes)
      → IsSharded m
      → is_some (load key writeset) ≡ false
      → Fits index (size m key)
      → (m' : VersionMap) × (remove_key checksum index writeset m key ≡ ok m')
        × Writes m index key none m'
  unfolding remove_key
  remove_key_lem index writeset m key h e f = elim (Option-cases (get checksum m key)) [
    | inl q ↦ (m, rw (e, q), Writes-none m index key h q)
    | inr (item, q) ↦
        let room : index < length item.value_list = subst (λ o. Fits index (size_of o)) q f in
        let (item', run, w) = (writers_lem item index 0 [] (omega arith) room).3 in
        (
          set_key checksum m key item',
          rw (e, q, run),
          Writes-set_key m index key none item item' h q w,
        )
  ]

  -- `Delete` or `Set`, as the value asks.
  write_value_lem :
      (index incarnation : ℕ) (value : Slice) (item : MultiVersionListItem)
      → IsWritable value
      → index < length item.value_list
      → (item' : MultiVersionListItem) × (write_value checksum index incarnation value item
          ≡ ok item')
        × Puts item index (some (written_item index incarnation value)) item'
  write_value_lem index incarnation none item v room =
      (writers_lem item index incarnation [] (omega arith) room).2
  write_value_lem index incarnation (some w) item v room =
      (writers_lem item index incarnation w v room).0

  pub write_item_lem :
      (index incarnation : ℕ) (m : VersionMap) (key : Bytes) (value : Slice)
      → IsSharded m
      → IsWritable value
      → HasSlot index (size m key)
      → (m' : VersionMap) × (write_item checksum index incarnation m key value ≡ ok m')
        × Writes m index key (some (written_item index incarnation value)) m'
  unfolding write_item
  write_item_lem index incarnation m key value h v f = elim (Option-cases (get checksum m key)) [
    | inl q ↦ absurd (subst (λ o. HasSlot index (size_of o)) q f)
    | inr (item, q) ↦
        let room : index < length item.value_list = subst (λ o. HasSlot index (size_of o)) q f in
        let (item', run, w) = write_value_lem index incarnation value item v room in
        (
          set_key checksum m key item',
          rw (write_item, q, run),
          Writes-set_key m index key (some (written_item index incarnation value)) item item' h q w,
        )
  ]

  pub estimate_key_lem :
      (index incarnation : ℕ) (m : VersionMap) (key : Bytes)
      → IsSharded m
      → HasSlot index (size m key)
      → (m' : VersionMap) × (estimate_key checksum index incarnation m key ≡ ok m')
        × Writes m index key (some (new_estimate_item index incarnation)) m'
  unfolding estimate_key
  estimate_key_lem index incarnation m key h f = elim (Option-cases (get checksum m key)) [
    | inl q ↦ absurd (subst (λ o. HasSlot index (size_of o)) q f)
    | inr (item, q) ↦
        let room : index < length item.value_list = subst (λ o. HasSlot index (size_of o)) q f in
        let (item', run, w) = (writers_lem item index incarnation [] (omega arith) room).1 in
        (
          set_key checksum m key item',
          rw (estimate_key, q, run),
          Writes-set_key m index key (some (new_estimate_item index incarnation)) item item' h q w,
        )
  ]
