-- ===== src/MultiVersion/MvKv/Verdict.antt =====
-- When ValidateReadset of multiversion/mvkv.go finds the reads of a transaction valid.
use melodiasdk_io_store.Prelude.{
  ◌≡◌, ◌↔◌, refl, sym, ap, ◌∙◌, Bool, true, false, List, [], ◌∷◌, Option, none, some, ok, arith,
  Bool-cases, inl, inr, Result-cases,
}
use melodiasdk_io_store.Bytes.{Bytes, Slice}
use melodiasdk_io_store.Bytes.Order.{compare_bytes_eq, compare_bytes_refl}
use melodiasdk_io_store.SyncMap.{load}
use melodiasdk_io_store.Types.KvStore.{KvStore, or_empty}
use melodiasdk_io_store.Types.Validity.{IsKey}
use melodiasdk_io_store.MultiVersion.ValueItem.{ValueItem, is_estimate, is_deleted}
use melodiasdk_io_store.MultiVersion.Tracker.{ReadSet}
use melodiasdk_io_store.MultiVersion.Interface.{MultiVersionStore}
use melodiasdk_io_store.MultiVersion.ListStore.{sort_keys, keys_of, slice_eq}
use melodiasdk_io_store.MultiVersion.ListStore.Readsets.{
  IsCurrent, unwritten, deleted, written, AllKeys,
}
use melodiasdk_io_store.MultiVersion.ListStore.Keys.{Every, Every-sort_keys, Every-of_sort_keys}
use melodiasdk_io_store.MultiVersion.MvKv.{
  VersionIndexedStore, validate_value, validate_key, validate_keys, validate_readset,
}
use melodiasdk_io_store.MultiVersion.MvKv.View.{is_estimated}
use melodiasdk_io_store.MultiVersion.MvKv.Current.{before, validate_value_lem}

slice_eq-sym : (v w : Slice) → slice_eq v w ≡ true → slice_eq w v ≡ true
slice_eq-sym v w h =
    let same = compare_bytes_eq (or_empty v) (or_empty w) (ground (arith, h)) in
    rw same (rw (compare_bytes_refl (or_empty w)) refl)

module _ (p : KvStore) (m : MultiVersionStore) where
  -- A key was read with one value, which is current, and is behind no estimate.
  abbrev pub ReadHolds : VersionIndexedStore p m → Bytes → Type 0
  ReadHolds s k =
      (v : Slice) × (load k s.readset ≡ some (v ∷ []))
      × IsCurrent (p.view s.parent k) v (before p m s k)
      × (is_estimated (before p m s k) ≡ false)

  -- A version that passes is no estimate and has the value that was read.
  version-IsCurrent :
      (s : VersionIndexedStore p m) (k : Bytes) (v : Slice) (x : ValueItem)
      → (validate_value p m k v (some x) s).0 ≡ ok true
      → IsCurrent (p.view s.parent k) v (some x) × (is_estimate x ≡ false)
  unfolding validate_value is_estimate is_deleted
  version-IsCurrent s k v x h = by_parts x.estimate x.value refl refl
    where
      by_parts :
          (b : Bool) (w : Slice)
          → x.estimate ≡ b
          → x.value ≡ w
          → IsCurrent (p.view s.parent k) v (some x) × (x.estimate ≡ false)
      by_parts true w e q = absurd (ground (arith, h, e))
      by_parts false none e q = (deleted x refl e q (ground (arith, h, e, q)), e)
      by_parts false (some w) e q =
          (written x w refl e q (slice_eq-sym v (some w) (ground (arith, h, e, q))), e)

  validate_value-IsCurrent :
      (s : VersionIndexedStore p m) (k : Bytes) (v : Slice) (found : Option ValueItem)
      → p.IsOk s.parent
      → IsKey k
      → (validate_value p m k v found s).0 ≡ ok true
      → IsCurrent (p.view s.parent k) v found × (is_estimated found ≡ false)
  unfolding validate_value
  validate_value-IsCurrent s k v none o key h = elim (Bool-cases (slice_eq (p.view s.parent k) v)) [
    | inl same ↦ (unwritten refl same, refl)
    | inr other ↦ absurd (ground (arith, h, p.get_lem s.parent k o key, other))
  ]
  validate_value-IsCurrent s k v (some x) o key h = version-IsCurrent s k v x h

  validate_key-single :
      (s : VersionIndexedStore p m) (k : Bytes) (v : Slice)
      → load k s.readset ≡ some (v ∷ [])
      → validate_key p m k s ≡ validate_value p m k v (before p m s k) s
  unfolding validate_key
  validate_key-single s k v e = rw (validate_key, e) refl

  validate_key-holds :
      (s : VersionIndexedStore p m) (k : Bytes)
      → p.IsOk s.parent
      → IsKey k
      → ReadHolds s k
      → validate_key p m k s ≡ (ok true, s)
  validate_key-holds s k o key (v, e, c, sure) =
      validate_key-single s k v e ∙ validate_value_lem p m s k v (before p m s k) o key sure c

  validate_key_lem :
      (s : VersionIndexedStore p m) (k : Bytes)
      → p.IsOk s.parent
      → IsKey k
      → ((validate_key p m k s).0 ≡ ok true) ↔ ReadHolds s k
  unfolding validate_key
  validate_key_lem s k o key =
      (there (load k s.readset) refl, λ h. ap (λ x. x.0) (validate_key-holds s k o key h))
    where
      there :
          (vs : Option (List Slice))
          → load k s.readset ≡ vs
          → (validate_key p m k s).0 ≡ ok true
          → ReadHolds s k
      there none e h = absurd (ground (arith, e, h))
      there (some []) e h = absurd (ground (arith, e, h))
      there (some (v ∷ w ∷ l)) e h = absurd (ground (arith, e, h))
      there (some (v ∷ [])) e h =
          let (c, sure) =
            validate_value-IsCurrent s k v (before p m s k) o key
              (ap (λ x. x.0) (sym (validate_key-single s k v e)) ∙ h) in
          (v, e, c, sure)

  validate_keys_lem :
      (s : VersionIndexedStore p m) (keys : List Bytes)
      → p.IsOk s.parent
      → Every IsKey keys
      → ((validate_keys p m keys s).0 ≡ ok true) ↔ Every (ReadHolds s) keys
  unfolding validate_keys
  validate_keys_lem s [] o h = (λ e. tt, λ e. refl)
  validate_keys_lem s (k ∷ ks) o h = (
    λ e.
        (let holds = (validate_key_lem s k o h.0).0 (first e) in
          (
            holds,
            (validate_keys_lem s ks o h.1).0
                (sym (rw (validate_key-holds s k o h.0 holds) refl) ∙ e),
          )),
    λ all. rw (validate_key-holds s k o h.0 all.0) ((validate_keys_lem s ks o h.1).1 all.1),
  )
    where
      first : (validate_keys p m (k ∷ ks) s).0 ≡ ok true → (validate_key p m k s).0 ≡ ok true
      first e = elim (Result-cases (validate_key p m k s).0) [
        | inl (true, r) ↦ r
        | inl (false, r) ↦ absurd (ground (arith, e, r))
        | inr (x, r) ↦ absurd (ground (arith, e, r))
      ]

  keys_of-IsKey : (l : ReadSet) → AllKeys l → Every IsKey (keys_of l)
  keys_of-IsKey [] h = tt
  keys_of-IsKey ((k, vs) ∷ l) h = (h.0, keys_of-IsKey l h.1)

  -- With a parent in order and valid keys in the read set, `ValidateReadset` returns true exactly where every key of the
  -- read set was read with one value, which is what the store before the transaction gives now, and none is behind an
  -- estimate.
  pub validate_readset_lem :
      (s : VersionIndexedStore p m)
      → p.IsOk s.parent
      → AllKeys s.readset
      → ((validate_readset p m s).0 ≡ ok true) ↔ Every (ReadHolds s) (keys_of s.readset)
  unfolding validate_readset
  validate_readset_lem s o h =
      let sorted = sort_keys (keys_of s.readset) in
      let valid = Every-sort_keys IsKey (keys_of s.readset) (keys_of-IsKey s.readset h) in
      (
        λ e.
            Every-of_sort_keys (ReadHolds s) (keys_of s.readset)
              ((validate_keys_lem s sorted o valid).0 e),
        λ all.
            (validate_keys_lem s sorted o valid).1
              (Every-sort_keys (ReadHolds s) (keys_of s.readset) all),
      )
