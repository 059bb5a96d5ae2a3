-- ===== src/MultiVersion/MvKv/Validation.antt =====
-- The two validations of the reads of a transaction: ValidateReadset of multiversion/mvkv.go, and checkReadsetAtIndex of
-- multiversion/list_store.go.
use melodiasdk_io_store.Prelude.{
  ℕ, ◌≡◌, ◌↔◌, refl, sym, ap, subst, ◌∙◌, Bool, true, false, List, [], ◌∷◌, Option, none, some, ok,
  arith, ◌||◌, Result, panic, get_elem?, Bool-cases, inl, inr,
}
use melodiasdk_io_store.Bytes.{Bytes, Slice, bytes_eq}
use melodiasdk_io_store.Bytes.Order.{compare_bytes_eq, compare_bytes_refl}
use melodiasdk_io_store.SyncMap.{load}
use melodiasdk_io_store.Types.KvStore.{KvStore}
use melodiasdk_io_store.MultiVersion.ValueItem.{ValueItem, is_estimate}
use melodiasdk_io_store.MultiVersion.Tracker.{ReadSet}
use melodiasdk_io_store.MultiVersion.ListStore.{
  VersionStoreIndexKeys, ListStore, latest_before, check_readset_at_index, keys_of,
}
use melodiasdk_io_store.MultiVersion.ListStore.Keys.{Every}
use melodiasdk_io_store.MultiVersion.ListStore.Writesets.{has_key}
use melodiasdk_io_store.MultiVersion.ListStore.Readsets.{
  IsCurrent, AllCurrent, AllKeys, member, is_conflict, has_conflict, matches, matches-IsCurrent,
  check_readset_at_index_lem,
}
use melodiasdk_io_store.MultiVersion.ListStore.Instance.{list_versions}
use melodiasdk_io_store.MultiVersion.MvKv.{VersionIndexedStore, validate_readset}
use melodiasdk_io_store.MultiVersion.MvKv.View.{is_estimated}
use melodiasdk_io_store.MultiVersion.MvKv.Current.{AllSettled}
use melodiasdk_io_store.MultiVersion.MvKv.Verdict.{validate_readset_lem}

is_conflict-none :
    (i : ℕ) (parent v : Slice) (found : Option ValueItem)
    → IsCurrent parent v found
    → is_estimated found ≡ false
    → is_conflict i v found ≡ false
unfolding is_estimate
is_conflict-none i parent v none c e = refl
is_conflict-none i parent v (some x) c e =
    let m : matches v x ≡ true = (matches-IsCurrent parent v x).1 c in rw m (rw e (ground arith))

has_conflict-none :
    (i : ℕ) (parent : Bytes → Slice) (found : Bytes → Option ValueItem) (m : ReadSet)
    → AllCurrent parent found m
    → AllSettled found m
    → has_conflict i found m ≡ false
has_conflict-none i parent found [] c e = refl
has_conflict-none i parent found ((k, vs) ∷ m) c e =
    let (v, q, cur) = c.0 in
    subst (λ ws. has_conflict i found ((k, ws) ∷ m) ≡ false) (sym q)
      (rw (is_conflict-none i (parent k) v (found k) cur e.0)
        (has_conflict-none i parent found m c.1 e.1))

no_members : (l : List ℕ) → ((i : ℕ) → member i l ≡ false) → l ≡ []
no_members [] h = refl
no_members (x ∷ l) h = absurd (ground (arith, h x))

-- An estimate conflicts at its own index.
settled-one :
    (v : Slice) (found : Option ValueItem)
    → ((i : ℕ) → is_conflict i v found ≡ false)
    → is_estimated found ≡ false
unfolding is_estimate
settled-one v none h = refl
settled-one v (some x) h = ground (arith, h x.index)

AllSettled-no_conflict :
    (parent : Bytes → Slice) (found : Bytes → Option ValueItem) (m : ReadSet)
    → AllCurrent parent found m
    → ((i : ℕ) → has_conflict i found m ≡ false)
    → AllSettled found m
AllSettled-no_conflict parent found [] c h = tt
AllSettled-no_conflict parent found ((k, vs) ∷ m) c h =
    let (v, q, cur) = c.0 in
    let h' : (i : ℕ) → (is_conflict i v (found k) || has_conflict i found m) ≡ false =
      λ i. subst (λ ws. has_conflict i found ((k, ws) ∷ m) ≡ false) q (h i) in
    (
      settled-one v (found k) (λ i. ground (arith, h' i)),
      AllSettled-no_conflict parent found m c.1 (λ i. ground (arith, h' i)),
    )

-- Each key stands in the read set once, as in a map of the source.
abbrev pub IsMap : ReadSet → Type 0
IsMap [] = Unit
IsMap ((k, vs) ∷ m) = (has_key k (keys_of m) ≡ false) × IsMap m

bytes_eq-swap : (j k : Bytes) → bytes_eq k j ≡ false → bytes_eq j k ≡ false
bytes_eq-swap j k t = elim (Bool-cases (bytes_eq j k)) [
  | inr u ↦ u
  | inl u ↦
      let same : j ≡ k = compare_bytes_eq j k (ground (arith, u)) in
      let self : bytes_eq k k ≡ false = subst (λ i. bytes_eq k i ≡ false) same t in
      absurd (ground (arith, self, compare_bytes_refl k))
]

-- One key of a read set as in `ReadHolds`.
abbrev Holds : (Bytes → Slice) → (Bytes → Option ValueItem) → ReadSet → Bytes → Type 0
Holds parent found l k =
    (v : Slice) × (load k l ≡ some (v ∷ []))
    × IsCurrent (parent k) v (found k)
    × (is_estimated (found k) ≡ false)

load-other :
    (j k : Bytes) (vs : List Slice) (m : ReadSet)
    → bytes_eq k j ≡ false
    → load j ((k, vs) ∷ m) ≡ load j m
unfolding load
load-other j k vs m h = rw (bytes_eq-swap j k h) refl

load-here : (k : Bytes) (vs : List Slice) (m : ReadSet) → load k ((k, vs) ∷ m) ≡ some vs
unfolding load
load-here k vs m = rw (compare_bytes_refl k) refl

Holds-other :
    (parent : Bytes → Slice) (found : Bytes → Option ValueItem) (k : Bytes) (vs : List Slice)
    (m : ReadSet) (ks : List Bytes)
    → has_key k ks ≡ false
    → Every (Holds parent found ((k, vs) ∷ m)) ks ↔ Every (Holds parent found m) ks
Holds-other parent found k vs m [] h = (λ e. tt, λ e. tt)
Holds-other parent found k vs m (j ∷ ks) h =
    let other = load-other j k vs m (ground (arith, h)) in
    let rest = Holds-other parent found k vs m ks (ground (arith, h)) in
    (
      λ e. let ((v, q, c, t), r) = e in ((v, sym other ∙ q, c, t), rest.0 r),
      λ e. let ((v, q, c, t), r) = e in ((v, other ∙ q, c, t), rest.1 r),
    )

abbrev values_or : List Slice → Option (List Slice) → List Slice
values_or d none = d
values_or d (some vs) = vs

Holds-rows :
    (parent : Bytes → Slice) (found : Bytes → Option ValueItem) (m : ReadSet)
    → IsMap m
    → Every (Holds parent found m) (keys_of m) ↔ (AllCurrent parent found m × AllSettled found m)
Holds-rows parent found [] d = (λ e. (tt, tt), λ e. tt)
Holds-rows parent found ((k, vs) ∷ m) d =
    let others = Holds-other parent found k vs m (keys_of m) d.0 in
    let rest = Holds-rows parent found m d.1 in
    (
      λ e.
          let ((v, q, c, t), r) = e in
          let (cs, ts) = rest.0 (others.0 r) in
          (((v, ap (values_or vs) (sym (load-here k vs m) ∙ q), c), cs), (t, ts)),
      λ e.
          let (((v, q, c), cs), (t, ts)) = e in
          ((v, load-here k vs m ∙ ap some q, c, t), others.1 (rest.1 (cs, ts))),
    )

module _ (checksum : Bytes → ℕ) (p : KvStore) where
  abbrev answer : Result (Bool × List ℕ) → Bool
  answer (ok (b, l)) = b
  answer (panic e) = false

  abbrev conflicts : Result (Bool × List ℕ) → List ℕ
  conflicts (ok (b, l)) = l
  conflicts (panic e) = []

  list_accepts :
      (s : ListStore checksum p) (index : ℕ) (keys : VersionStoreIndexKeys)
      → p.IsOk s.parent_store
      → get_elem? s.keys_list index ≡ some keys
      → AllKeys keys.readset
      → (check_readset_at_index checksum p s index ≡ ok (true, [])) ↔ (
          AllCurrent (p.view s.parent_store) (latest_before checksum p s index) keys.readset
          × AllSettled (latest_before checksum p s index) keys.readset)
  list_accepts s index keys o e h =
      let (b, l, run, q, a, c) = check_readset_at_index_lem checksum p s index keys o e h in
      let found = latest_before checksum p s index in
      (
        λ accepted.
            let both = sym run ∙ accepted in
            let current = q.0 (ap answer both) in
            let quiet = λ (i : ℕ). sym (c i) ∙ ap (member i) (ap conflicts both) in
            (
              current,
              AllSettled-no_conflict (p.view s.parent_store) found keys.readset current quiet,
            ),
        λ holds.
            let none_left = no_members l (λ i.
              c i
              ∙ has_conflict-none i (p.view s.parent_store) found keys.readset holds.0 holds.1) in
            run ∙ ap (λ x. ok (x, l)) (q.1 holds.0) ∙ ap (λ x. ok (true, x)) none_left,
      )

  -- ValidateReadset of a transaction and checkReadsetAtIndex of the list store that it uses agree on the same parent and
  -- on the transaction's own read set of valid keys, each once: the one returns true exactly where the other returns
  -- true with no conflicts.
  pub validations_agree :
      (s : VersionIndexedStore p (list_versions checksum p)) (keys : VersionStoreIndexKeys)
      → p.IsOk s.parent
      → s.multi_version_store.parent_store ≡ s.parent
      → get_elem? s.multi_version_store.keys_list s.transaction_index ≡ some keys
      → keys.readset ≡ s.readset
      → AllKeys s.readset
      → IsMap s.readset
      → ((validate_readset p (list_versions checksum p) s).0 ≡ ok true) ↔ (
          check_readset_at_index checksum p s.multi_version_store s.transaction_index
          ≡ ok (true, []))
  validations_agree s keys o same e kept h d =
      let mvs = s.multi_version_store in
      let found = latest_before checksum p mvs s.transaction_index in
      let verdict = validate_readset_lem p (list_versions checksum p) s o h in
      let rows = Holds-rows (p.view s.parent) found s.readset d in
      let accepts : (check_readset_at_index checksum p mvs s.transaction_index ≡ ok (true, []))
          ↔ (AllCurrent (p.view s.parent) found s.readset × AllSettled found s.readset) =
        subst
          (λ x.
            (check_readset_at_index checksum p mvs s.transaction_index ≡ ok (true, []))
            ↔ (AllCurrent (p.view x) found s.readset × AllSettled found s.readset))
          same
          (subst
            (λ l.
              (check_readset_at_index checksum p mvs s.transaction_index ≡ ok (true, []))
              ↔ (AllCurrent (p.view mvs.parent_store) found l × AllSettled found l))
            kept
            (list_accepts mvs s.transaction_index keys (subst p.IsOk (sym same) o) e
              (subst AllKeys (sym kept) h))) in
      (λ v. accepts.1 (rows.0 (verdict.0 v)), λ c. verdict.1 (rows.1 (accepts.0 c)))
