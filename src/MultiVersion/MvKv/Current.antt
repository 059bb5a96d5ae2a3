-- ===== src/MultiVersion/MvKv/Current.antt =====
-- The read set of `VersionIndexedStore` of multiversion/mvkv.go and its validation.
use melodiasdk_io_store.Prelude.{
  ◌≡◌, refl, sym, ap, subst, ◌∙◌, true, false, [], ◌∷◌, Option, none, some, ok, if◌then◌else◌,
  arith, Bool-cases, inl, inr,
}
use melodiasdk_io_store.Bytes.{Bytes, Slice, bytes_eq}
use melodiasdk_io_store.Bytes.Order.{compare_bytes_eq, compare_bytes_refl}
use melodiasdk_io_store.SyncMap.{load, store}
use melodiasdk_io_store.Types.KvStore.{KvStore, or_empty}
use melodiasdk_io_store.Types.Validity.{IsKey}
use melodiasdk_io_store.MultiVersion.ValueItem.{ValueItem, is_estimate, is_deleted}
use melodiasdk_io_store.MultiVersion.Tracker.{ReadSet}
use melodiasdk_io_store.MultiVersion.Interface.{MultiVersionStore}
use melodiasdk_io_store.MultiVersion.ListStore.Readsets.{
  IsCurrent, unwritten, estimated, deleted, written, AllCurrent,
}
use melodiasdk_io_store.MultiVersion.MvKv.{VersionIndexedStore, version_value, get, validate_value}
use melodiasdk_io_store.MultiVersion.MvKv.View.{
  value_of, is_estimated, view, latest, is_blocked, IsOk, read_first, Effect, unchanged, first,
  get-cases,
}

-- The first value that is read is current.
IsCurrent-value_of :
    (parent : Slice) (found : Option ValueItem)
    → is_estimated found ≡ false
    → IsCurrent parent (value_of parent found) found
unfolding version_value is_estimate
IsCurrent-value_of parent none e = unwritten refl (rw (compare_bytes_refl (or_empty parent)))
IsCurrent-value_of parent (some v) e = by_value v.value refl
  where
    by_value : (w : Slice) → v.value ≡ w → IsCurrent parent (version_value v) (some v)
    by_value none q = deleted v refl e q (rw (e, q))
    by_value (some w) q = written v w refl e q (rw (e, q, compare_bytes_refl w))

other_key :
    (j k : Bytes) (x y : Option ValueItem)
    → bytes_eq k j ≡ false
    → (if bytes_eq j k then x else y) ≡ y
other_key j k x y t = elim (Bool-cases (bytes_eq j k)) [
  | inl u ↦
      let same : j ≡ k = compare_bytes_eq j k (ground arith) in
      let self : bytes_eq k k ≡ false = subst (λ i. bytes_eq k i ≡ false) same t in
      absurd (ground (arith, compare_bytes_refl k))
  | inr u ↦ rw u
]

AllCurrent-store :
    (parent : Bytes → Slice) (before after : Bytes → Option ValueItem) (k : Bytes) (v : Slice)
    (found : Option ValueItem) (m : ReadSet)
    → ((j : Bytes) → after j ≡ (if bytes_eq j k then found else before j))
    → IsCurrent (parent k) v found
    → load k m ≡ none
    → AllCurrent parent before m
    → AllCurrent parent after (store k (v ∷ []) m)
unfolding store load
AllCurrent-store parent before after k v found [] h c e a =
    ((v, refl, subst (λ f. IsCurrent (parent k) v f) (sym (h k ∙ rw (compare_bytes_refl k))) c), tt)
AllCurrent-store parent before after k v found ((j, vs) ∷ m) h c e a =
    elim (Bool-cases (bytes_eq k j)) [
      | inl t ↦ absurd (ground arith)
      | inr t ↦
          let (w, q, cur) = a.0 in
          let other : after j ≡ before j = h j ∙ other_key j k found (before j) t in
          rw t (
            (w, q, subst (λ f. IsCurrent (parent j) w f) (sym other) cur),
            AllCurrent-store parent before after k v found m h c (ground arith) a.1,
          )
    ]

-- No key of the read set is behind an estimate.
abbrev pub AllSettled : (Bytes → Option ValueItem) → ReadSet → Type 0
AllSettled found [] = Unit
AllSettled found ((k, vs) ∷ l) = (is_estimated (found k) ≡ false) × AllSettled found l

module _ (p : KvStore) (m : MultiVersionStore) where
  abbrev pub before : VersionIndexedStore p m → Bytes → Option ValueItem
  before s k = m.latest_before s.multi_version_store s.transaction_index k

  -- Every read of the transaction is still what the store gives.
  abbrev pub ReadsAreCurrent : VersionIndexedStore p m → Type 0
  ReadsAreCurrent s = AllCurrent (p.view s.parent) (before s) s.readset

  -- `Get` of a key that is not blocked, with a parent and a multiversion store in order, keeps all reads
  -- current.
  pub get-ReadsAreCurrent :
      (s : VersionIndexedStore p m) (k : Bytes)
      → IsOk p m s
      → IsKey k
      → is_blocked p m s k ≡ false
      → ReadsAreCurrent s
      → (s' : VersionIndexedStore p m) × (get p m k s ≡ (ok (view p m s k), s'))
        × IsOk p m s'
        × ReadsAreCurrent s'
  unfolding read_first
  get-ReadsAreCurrent s k o h b c =
      let (s', run, shows, kept, effect) = get-cases p m s k o h b in
      (s', run, shows.is_ok, after s' effect)
    where
      after : (s' : VersionIndexedStore p m) → Effect p m s k s' → ReadsAreCurrent s'
      after s' (unchanged e) = subst ReadsAreCurrent (sym e) c
      after s' (first r e q) = subst ReadsAreCurrent (sym q) (
          AllCurrent-store (p.view s.parent) (before s) (before (read_first p m s k)) k
            (value_of (p.view s.parent k) (latest p m s k)) (latest p m s k) s.readset
            (m.expansion_lem s.multi_version_store s.transaction_index k o.versions_ok).1
            (IsCurrent-value_of (p.view s.parent k) (latest p m s k) e) r c)

  pub validate_value_lem :
      (s : VersionIndexedStore p m) (k : Bytes) (v : Slice) (found : Option ValueItem)
      → p.IsOk s.parent
      → IsKey k
      → is_estimated found ≡ false
      → IsCurrent (p.view s.parent k) v found
      → validate_value p m k v found s ≡ (ok true, s)
  unfolding validate_value is_estimate is_deleted
  validate_value_lem s k v found o h e (unwritten q t) =
      subst (λ f. validate_value p m k v f s ≡ (ok true, s)) (sym q)
        (rw (validate_value, p.get_lem s.parent k o h, t))
  validate_value_lem s k v found o h e (estimated x q t) =
      absurd (ground (arith, ap is_estimated q))
  validate_value_lem s k v found o h e (deleted x q t u w) =
      subst (λ f. validate_value p m k v f s ≡ (ok true, s)) (sym q) (rw (t, u, w))
  validate_value_lem s k v found o h e (written x y q t u w) =
      subst (λ f. validate_value p m k v f s ≡ (ok true, s)) (sym q)
        (let same : y ≡ or_empty v = compare_bytes_eq y (or_empty v) (ground arith) in
          rw (t, u) (rw same (rw (compare_bytes_refl (or_empty v)))))
