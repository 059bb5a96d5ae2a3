-- ===== src/Prefix/Writes.antt =====
-- What the reads and writes of prefix/store.go do to the parent.
use melodiasdk_io_store.Prelude.{
  ◌+◌, ◌≤◌, ◌<◌, ◌≡◌, refl, ap, ◌∙◌, false, ◌++◌, none, some, ok, panic, nil_key, arith, length,
  length-append, if◌then◌else◌, is_some, Bool-cases, inl, inr,
}
use melodiasdk_io_store.Bytes.{Bytes, Slice, bytes_eq, has_prefix, is_eq}
use melodiasdk_io_store.Bytes.Order.{compare_bytes_eq}
use melodiasdk_io_store.Types.Validity.{
  IsKey, IsValue, max_key_length, assert_valid_key_lem, assert_valid_value_lem,
}
use melodiasdk_io_store.Types.KvStore.{KvStore}
use melodiasdk_io_store.Prefix.{Store, key, get, has, set, delete, clone_append}
use melodiasdk_io_store.Prefix.Keys.{compare_bytes-prefix, has_prefix-append}

module _ (p : KvStore) where
  -- What the store shows of a parent.
  abbrev pub view : Store p → Bytes → Slice
  view s k = p.view s.parent (s.prefix ++ k)

  prefixed-IsKey :
      (s : Store p) (k : Bytes)
      → 0 < length k
      → length s.prefix + length k ≤ max_key_length
      → IsKey (s.prefix ++ k)
  prefixed-IsKey s k h h' =
      (omega (arith, length-append s.prefix k), omega (arith, length-append s.prefix k))

  -- The state after a write of `v` at a key: the store shows it there, and the parent is as it was outside
  -- the key.
  pub record Wrote (s : Store p) (k : Bytes) (v : Slice) (s' : Store p) : Type 0 where
    pub sound : p.IsOk s'.parent
    pub same_prefix : s'.prefix ≡ s.prefix
    pub shown : (j : Bytes) → view s' j ≡ (if bytes_eq j k then v else view s j)
    pub isolated :
        (j : Bytes) → has_prefix j s.prefix ≡ false → p.view s'.parent j ≡ p.view s.parent j

  not_prefixed : (j q k : Bytes) → has_prefix j q ≡ false → bytes_eq j (q ++ k) ≡ false
  not_prefixed j q k h = elim (Bool-cases (bytes_eq j (q ++ k))) [
    | inl e ↦
        let same : j ≡ q ++ k = compare_bytes_eq j (q ++ k) (ground arith) in
        absurd (ground (arith, ap (λ i. has_prefix i q) same, has_prefix-append q k))
    | inr e ↦ e
  ]

  Wrote-of_parent :
      (s : Store p) (q : p.State) (k : Bytes) (v : Slice)
      → p.IsOk q
      → ((j : Bytes) → p.view q j ≡ (if bytes_eq j (s.prefix ++ k) then v else p.view s.parent j))
      → Wrote s k v (record s { parent = q })
  Wrote-of_parent s q k v o h = record {
    sound = o;
    same_prefix = refl;
    shown = λ j.
        h (s.prefix ++ j)
        ∙ ap (λ c. if is_eq c then v else p.view s.parent (s.prefix ++ j))
            (compare_bytes-prefix s.prefix j k);
    isolated = λ j n. ground (arith, h j, not_prefixed j s.prefix k n);
  }

  -- `Get` and `Has` read what the store shows, and a nil key panics.
  pub get_has-view :
      (s : Store p) (k : Bytes)
      → p.IsOk s.parent
      → 0 < length k
      → length s.prefix + length k ≤ max_key_length
      → (get p s (some k) ≡ ok (view s k))
        × (has p s (some k) ≡ ok (is_some (view s k)))
        × (get p s none ≡ panic nil_key)
  unfolding get has key clone_append
  get_has-view s k o h h' =
      let e = p.get_lem s.parent (s.prefix ++ k) o (prefixed-IsKey s k h h') in (rw e, rw e, refl)

  -- `Set` of a valid pair whose prefixed key is not too long succeeds, shows the value at the key alone, and
  -- leaves the parent's keys without the prefix as they were.
  pub set-Wrote :
      (s : Store p) (k v : Bytes)
      → p.IsOk s.parent
      → 0 < length k
      → length s.prefix + length k ≤ max_key_length
      → IsValue v
      → (s' : Store p) × (set p s (some k) (some v) ≡ ok s') × Wrote s k (some v) s'
  unfolding set key clone_append
  set-Wrote s k v o h h' hv =
      let (q, e, o', w) = p.set_lem s.parent (s.prefix ++ k) v o (prefixed-IsKey s k h h') hv in
      (
        record s { parent = q },
        rw (assert_valid_key_lem k (h, omega arith), assert_valid_value_lem v hv, e),
        Wrote-of_parent s q k (some v) o' w,
      )

  -- `Delete` hides the key alone, and leaves the parent's keys without the prefix as they were.
  pub delete-Wrote :
      (s : Store p) (k : Bytes)
      → p.IsOk s.parent
      → 0 < length k
      → length s.prefix + length k ≤ max_key_length
      → (s' : Store p) × (delete p s (some k) ≡ ok s') × Wrote s k none s'
  unfolding delete key clone_append
  delete-Wrote s k o h h' =
      let (q, e, o', w) = p.delete_lem s.parent (s.prefix ++ k) o (prefixed-IsKey s k h h') in
      (record s { parent = q }, rw e, Wrote-of_parent s q k none o' w)
