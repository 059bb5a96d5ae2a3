-- ===== src/InterBlock/Coherence.antt =====
-- The cache of cache/cache.go never shows: a store with it answers as the one that it wraps.
use melodiasdk_io_store.Prelude.{
  ◌≡◌, refl, sym, ap, ◌∙◌, inl, inr, true, List, [], ◌∷◌, Option, none, some, Result, ok, ◌>>=◌,
  arith, if◌then◌else◌, Option-cases, Bool-cases, if-true, if-false,
}
use melodiasdk_io_store.Method.{Method, continue}
use melodiasdk_io_store.Bytes.{Bytes, Slice, bytes_eq}
use melodiasdk_io_store.Bytes.Order.{compare_bytes_eq}
use melodiasdk_io_store.Types.Validity.{
  IsKey, IsValue, assert_valid_key_lem, assert_valid_value_lem,
}
use melodiasdk_io_store.Types.KvStore.{KvStore}
use melodiasdk_io_store.InterBlock.{
  ArcCache, StoreCache, get, set, delete, after_lookup, cache_value,
}

-- A call with a key and a value that the checks accept.
pub data Call : Type 0 where
  get_call : (k : Bytes) → IsKey k → Call
  set_call : (k v : Bytes) → IsKey k → IsValue v → Call
  delete_call : (k : Bytes) → IsKey k → Call

-- What a cache has is in a view.
abbrev Shows : (a : ArcCache) → a.State → (Bytes → Slice) → Type 0
Shows a c view = (j : Bytes) (w : Slice) → a.held c j ≡ some w → view j ≡ w

abbrev or_nil : Option Slice → Slice
or_nil none = none
or_nil (some v) = v

some_inj : {v w : Slice} → some v ≡ some w → v ≡ w
some_inj e = ap or_nil e

module _ (a : ArcCache) where
  Shows-add :
      (c : a.State) (k : Bytes) (v : Slice) (view view' : Bytes → Slice)
      → Shows a c view
      → ((j : Bytes) → view' j ≡ (if bytes_eq j k then v else view j))
      → Shows a (a.add c k v) view'
  Shows-add c k v view view' s e j w h = elim (a.add_lem c k j v) [
    | inl dropped ↦ absurd (ground (arith, h, dropped))
    | inr kept ↦ elim (Bool-cases (bytes_eq j k)) [
      | inl same ↦
          e j
          ∙ if-true (bytes_eq j k) _ _ same
          ∙ some_inj (sym (if-true (bytes_eq j k) _ _ same) ∙ sym kept ∙ h)
      | inr other ↦
          e j
          ∙ if-false (bytes_eq j k) _ _ other
          ∙ s j w (sym (if-false (bytes_eq j k) _ _ other) ∙ sym kept ∙ h)
    ]
  ]

  Shows-remove :
      (c : a.State) (k : Bytes) (view view' : Bytes → Slice)
      → Shows a c view
      → ((j : Bytes) → view' j ≡ (if bytes_eq j k then none else view j))
      → Shows a (a.remove c k) view'
  Shows-remove c k view view' s e j w h = elim (Bool-cases (bytes_eq j k)) [
    | inl same ↦
        absurd
          (ground (arith, sym (if-true (bytes_eq j k) _ _ same) ∙ sym (a.remove_lem c k j) ∙ h))
    | inr other ↦
        e j
        ∙ if-false (bytes_eq j k) _ _ other
        ∙ s j w (sym (if-false (bytes_eq j k) _ _ other) ∙ sym (a.remove_lem c k j) ∙ h)
  ]

bytes_eq-eq : (j k : Bytes) → bytes_eq j k ≡ true → j ≡ k
bytes_eq-eq j k h = ground (arith, compare_bytes_eq j k)

view_same :
    (view : Bytes → Slice) (k j : Bytes) → view j ≡ (if bytes_eq j k then view k else view j)
view_same view k j = elim (Bool-cases (bytes_eq j k)) [
  | inl same ↦ ap view (bytes_eq-eq j k same) ∙ sym (if-true (bytes_eq j k) _ _ same)
  | inr other ↦ sym (if-false (bytes_eq j k) _ _ other)
]

module _ (p : KvStore) (a : ArcCache) where
  -- Every value that the cache has is the parent's.
  abbrev pub IsCoherent : StoreCache p a → Type 0
  IsCoherent s = p.IsOk s.parent × Shows a s.cache (p.view s.parent)

  -- What the calls of Get return, and the store after all calls.
  unfoldable pub run : List Call → Method (StoreCache p a) (List Slice)
  unfolding get set delete
  run [] s = (ok [], s)
  run (get_call k h ∷ l) s =
      continue (get p a k s).0 (get p a k s).1
        (λ v t. continue (run l t).0 (run l t).1 (λ vs u. (ok (v ∷ vs), u)))
  run (set_call k v h h' ∷ l) s =
      continue (set p a k (some v) s).0 (set p a k (some v) s).1 (λ _. run l)
  run (delete_call k h ∷ l) s = continue (delete p a k s).0 (delete p a k s).1 (λ _. run l)

  -- The same calls on a store without a cache.
  unfoldable pub run_parent : List Call → p.State → Result (List Slice × p.State)
  run_parent [] s = ok ([], s)
  run_parent (get_call k h ∷ l) s = do v ← p.get s k; (vs, t) ← run_parent l s; ok (v ∷ vs, t)
  run_parent (set_call k v h h' ∷ l) s = do s' ← p.set s k (some v); run_parent l s'
  run_parent (delete_call k h ∷ l) s = do s' ← p.delete s k; run_parent l s'

  -- After a call of Get: the parent's value, the same parent, and a coherent store.
  record Got (s : StoreCache p a) (k : Bytes) (s' : StoreCache p a) : Type 0 where
    returns : get p a k s ≡ (ok (p.view s.parent k), s')
    same_parent : s'.parent ≡ s.parent
    coherent : IsCoherent s'

  get-lookup :
      (s : StoreCache p a) (k : Bytes)
      → IsKey k
      → get p a k s ≡ after_lookup p a k (a.held s.cache k, (a.get_arc s.cache k).1) s
  unfolding get
  get-lookup s k h =
      ap (λ r. continue r s (λ _ t. after_lookup p a k (a.get_arc t.cache k) t))
        (assert_valid_key_lem k h)
      ∙ ap (λ o. after_lookup p a k (o, (a.get_arc s.cache k).1) s) (a.get_arc_lem s.cache k)

  get-Got :
      (s : StoreCache p a) (k : Bytes) → IsCoherent s → IsKey k → (s' : StoreCache p a) × Got s k s'
  get-Got s k c h =
      let moved = (a.get_arc s.cache k).1 in
      let shown : Shows a moved (p.view s.parent) =
        λ j w e. c.1 j w (sym (a.get_arc-held s.cache k j) ∙ e) in
      elim (Option-cases (a.held s.cache k)) [
        | inl miss ↦ (
          record s { cache = a.add moved k (p.view s.parent k) },
          record {
            returns =
                get-lookup s k h
                ∙ ap (λ o. after_lookup p a k (o, moved) s) miss
                ∙ ap (λ r. cache_value p a k r (record s { cache = moved }))
                    (p.get_lem s.parent k c.0 h);
            same_parent = refl;
            coherent = (
              c.0,
              Shows-add a moved k (p.view s.parent k) (p.view s.parent) (p.view s.parent) shown
                  (view_same (p.view s.parent) k),
            );
          },
        )
        | inr (v, hit) ↦ (
          record s { cache = moved },
          record {
            returns =
                get-lookup s k h
                ∙ ap (λ o. after_lookup p a k (o, moved) s) hit
                ∙ ap (λ x. (ok x, record s { cache = moved })) (sym (c.1 k v hit));
            same_parent = refl;
            coherent = (c.0, shown);
          },
        )
      ]

  set-Set :
      (s : StoreCache p a) (k v : Bytes) (q : p.State)
      → IsKey k
      → IsValue v
      → p.set s.parent k (some v) ≡ ok q
      → set p a k (some v) s ≡ (ok tt, record { parent = q; cache = a.add s.cache k (some v) })
  unfolding set
  set-Set s k v q h h' e = rw (assert_valid_key_lem k h, assert_valid_value_lem v h', e)

  delete-Delete :
      (s : StoreCache p a) (k : Bytes) (q : p.State)
      → p.delete s.parent k ≡ ok q
      → delete p a k s ≡ (ok tt, record { parent = q; cache = a.remove s.cache k })
  unfolding delete
  delete-Delete s k q e = rw e

  -- Any calls of Get, Set and Delete with valid keys and values, on a coherent store, return what they return on the store that it wraps, and leave
  -- that store as they would without the cache, and the cache coherent.
  pub run-run_parent :
      (l : List Call) (s : StoreCache p a)
      → IsCoherent s
      → (vs : List Slice) × (t : StoreCache p a) × (run l s ≡ (ok vs, t))
        × (run_parent l s.parent ≡ ok (vs, t.parent))
        × IsCoherent t
  unfolding run run_parent
  run-run_parent [] s c = ([], s, refl, refl, c)
  run-run_parent (get_call k h ∷ l) s c =
      let (s', g) = get-Got s k c h in
      let (vs, t, r, rp, ct) = run-run_parent l s' g.coherent in
      let rp' : run_parent l s.parent ≡ ok (vs, t.parent) =
        ap (run_parent l) (sym g.same_parent) ∙ rp in
      (p.view s.parent k ∷ vs, t, rw (g.returns, r), rw (p.get_lem s.parent k c.0 h, rp'), ct)
  run-run_parent (set_call k v h h' ∷ l) s c =
      let (q, e, o, view) = p.set_lem s.parent k v c.0 h h' in
      let shown = Shows-add a s.cache k (some v) (p.view s.parent) (p.view q) c.1 view in
      let s' : StoreCache p a = record { parent = q; cache = a.add s.cache k (some v) } in
      let (vs, t, r, rp, ct) = run-run_parent l s' (o, shown) in
      (
        vs,
        t,
        ap (λ x. continue x.0 x.1 (λ _. run l)) (set-Set s k v q h h' e) ∙ r,
        ap (λ x. x >>= run_parent l) e ∙ rp,
        ct,
      )
  run-run_parent (delete_call k h ∷ l) s c =
      let (q, e, o, view) = p.delete_lem s.parent k c.0 h in
      let shown = Shows-remove a s.cache k (p.view s.parent) (p.view q) c.1 view in
      let s' : StoreCache p a = record { parent = q; cache = a.remove s.cache k } in
      let (vs, t, r, rp, ct) = run-run_parent l s' (o, shown) in
      (
        vs,
        t,
        ap (λ x. continue x.0 x.1 (λ _. run l)) (delete-Delete s k q e) ∙ r,
        ap (λ x. x >>= run_parent l) e ∙ rp,
        ct,
      )
