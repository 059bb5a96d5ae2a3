-- ===== src/MultiVersion/MergeIterator/Validation.antt =====
-- The values that validationIterator of multiversion/memiterator.go serves.
use melodiasdk_io_store.Prelude.{
  ℕ, ◌≡◌, refl, sym, ap, ◌∙◌, inl, inr, true, List, [], ◌∷◌, ◌++◌, Option, none, some, Option-cases,
  if-true, ok, panic, nil_pointer, ◌≤◌, ◌⊎◌, Bool, false, not, ltb, length, blocked, is_some, ◌||◌,
  if◌then◌else◌, arith, Bool-cases,
}
use melodiasdk_io_store.Bytes.{Bytes, Slice, bytes_eq}
use melodiasdk_io_store.Bytes.Order.{compare_bytes_eq}
use melodiasdk_io_store.Method.{Method, continue}
use melodiasdk_io_store.SyncMap.{SyncMap, load, store, load-store}
use melodiasdk_io_store.MultiVersion.ValueItem.{ValueItem, is_estimate}
use melodiasdk_io_store.MultiVersion.Tracker.{WriteSet}
use melodiasdk_io_store.MultiVersion.Interface.{
  MultiVersionStore, Abort, new_estimate_abort, err_read_estimate,
}
use melodiasdk_io_store.MultiVersion.MvKv.{version_value}
use melodiasdk_io_store.MultiVersion.MergeIterator.Simulation.{IsSteady}

bytes_eq-eq : (j k : Bytes) → bytes_eq j k ≡ true → j ≡ k
bytes_eq-eq j k h = ground (arith, compare_bytes_eq j k)

abbrev or_else : ValueItem → Option ValueItem → ValueItem
or_else d none = d
or_else d (some x) = x

some_inj : {v w : ValueItem} → some v ≡ some w → v ≡ w
some_inj {v} e = ap (or_else v) e

module _ (m : MultiVersionStore) where
  -- What the values depend on; the keys are the merged iterator's.
  pub record ValidationIterator : Type 0 where
    pub mv_store : m.State
    pub writeset : WriteSet
    pub index : ℕ
    -- The aborts in the channel, which has room for `capacity`.
    pub abort_channel : List Abort
    pub capacity : ℕ
    pub read_cache : SyncMap Slice

  unfoldable pub new_validation_iterator :
      m.State → ℕ → WriteSet → List Abort → ℕ → ValidationIterator
  new_validation_iterator mv_store index writeset abort_channel capacity = record {
    mv_store = mv_store;
    writeset = writeset;
    index = index;
    abort_channel = abort_channel;
    capacity = capacity;
    read_cache = [];
  }

  -- An estimate is reported; the send blocks where the channel is full.
  unfoldable pub report_estimate : ValueItem → Method ValidationIterator (Unit {0})
  report_estimate val s =
      if is_estimate val
      then (if ltb (length s.abort_channel) s.capacity
          then (
            ok tt,
            record s { abort_channel = s.abort_channel ++ (new_estimate_abort val.index ∷ []) },
          )
          else (panic blocked, s))
      else (ok tt, s)

  -- An estimate is served as its value, which is nil.
  abbrev pub serve : Bytes → Option ValueItem → Method ValidationIterator Slice
  serve key none s = (panic nil_pointer, s)
  serve key (some val) s = continue (report_estimate val s).0 (report_estimate val s).1 (λ _ t. (
    ok (version_value val),
    record t { read_cache = store key (version_value val) t.read_cache },
  ))

  abbrev pub value_cached : Bytes → Option Slice → Method ValidationIterator Slice
  value_cached key (some v) s = (ok v, s)
  value_cached key none s = serve key (m.latest_before s.mv_store s.index key) s

  abbrev pub value_written : Bytes → Option Slice → Method ValidationIterator Slice
  value_written key (some v) s = (ok v, s)
  value_written key none s = value_cached key (load key s.read_cache) s

  unfoldable pub validation_value : Bytes → Method ValidationIterator Slice
  unfolding report_estimate
  validation_value key s = value_written key (load key s.writeset) s

  -- The handler of a validation keeps no read set.
  abbrev pub no_op : Bytes → Slice → ValidationIterator → ValidationIterator
  no_op key value s = s

  abbrev served : Option ValueItem → Slice
  served none = none
  served (some val) = version_value val

  abbrev pub look : Option Slice → Option Slice → Option ValueItem → Slice
  look (some v) cached found = v
  look none (some v) found = v
  look none none found = served found

  -- The value of a key: its own write, or what was served before, or the latest earlier version.
  abbrev pub view : ValidationIterator → Bytes → Slice
  view s k = look (load k s.writeset) (load k s.read_cache) (m.latest_before s.mv_store s.index k)

  -- There is something to serve.
  abbrev pub IsKnown : ValidationIterator → Bytes → Type 0
  IsKnown s k =
      (is_some (load k s.writeset) || is_some (m.latest_before s.mv_store s.index k)) ≡ true

  -- The same values are served.
  pub record Serves (s s' : ValidationIterator) : Type 0 where
    pub same_writeset : s'.writeset ≡ s.writeset
    pub same_store : s'.mv_store ≡ s.mv_store
    pub same_index : s'.index ≡ s.index
    pub same_view : (k : Bytes) → view s' k ≡ view s k

  -- The value is an estimate that is to be reported: it is neither the own write nor served before.
  abbrev asks : Option Slice → Option Slice → Option ValueItem → Bool
  asks (some v) cached found = false
  asks none (some v) found = false
  asks none none none = false
  asks none none (some val) = is_estimate val

  abbrev pub reports : ValidationIterator → Bytes → Bool
  reports s k =
      asks (load k s.writeset) (load k s.read_cache) (m.latest_before s.mv_store s.index k)

  -- A value that was served: the aborts that were sent, and what is served from then on.
  pub record IsServed (s : ValidationIterator) (k : Bytes) (t : ValidationIterator) : Type 0 where
    pub serves : Serves s t
    pub sent :
        (val : ValueItem)
        → m.latest_before s.mv_store s.index k ≡ some val
        → reports s k ≡ true
        → t.abort_channel
          ≡ s.abort_channel ++ record { dependent_tx_idx = val.index; err = err_read_estimate } ∷ []
    pub quiet : reports s k ≡ false → t.abort_channel ≡ s.abort_channel

  -- A full channel where an estimate is to be reported.
  abbrev pub Blocks : ValidationIterator → Bytes → Type 0
  Blocks s k = (reports s k ≡ true) × (s.capacity ≤ length s.abort_channel)

  look-served :
      (w cached : Option Slice) (found : Option ValueItem) (v : Slice)
      → look w cached found ≡ v
      → look w (some v) found ≡ v
  look-served (some u) cached found v e = e
  look-served none cached found v e = refl

  view-served :
      (s : ValidationIterator) (k : Bytes) (ch : List Abort) (v : Slice) (j : Bytes)
      → view s k ≡ v
      → view (record s { abort_channel = ch; read_cache = store k v s.read_cache }) j ≡ view s j
  view-served s k ch v j e = elim (Bool-cases (bytes_eq j k)) [
    | inl same ↦
        let eq : view s j ≡ v = ap (view s) (bytes_eq-eq j k same) ∙ e in
        ap (λ o. look (load j s.writeset) o (m.latest_before s.mv_store s.index j))
          (load-store k j v s.read_cache ∙ if-true (bytes_eq j k) _ _ same)
        ∙ look-served (load j s.writeset) (load j s.read_cache) _ v eq
        ∙ sym eq
    | inr other ↦ rw (load-store k j v s.read_cache, other)
  ]

  pub Serves-refl : (s : ValidationIterator) → Serves s s
  Serves-refl s = record {
    same_writeset = refl;
    same_store = refl;
    same_index = refl;
    same_view = λ k. refl;
  }

  Serves-trans : (s t u : ValidationIterator) → Serves s t → Serves t u → Serves s u
  Serves-trans s t u a b = record {
    same_writeset = b.same_writeset ∙ a.same_writeset;
    same_store = b.same_store ∙ a.same_store;
    same_index = b.same_index ∙ a.same_index;
    same_view = λ k. b.same_view k ∙ a.same_view k;
  }

  -- The iterator after a value was served and kept.
  abbrev kept : ValidationIterator → Bytes → Slice → List Abort → ValidationIterator
  kept s k v ch = record s { abort_channel = ch; read_cache = store k v s.read_cache }

  kept-Serves :
      (s : ValidationIterator) (k : Bytes) (v : Slice) (ch : List Abort)
      → view s k ≡ v
      → Serves s (kept s k v ch)
  kept-Serves s k v ch e = record {
    same_writeset = refl;
    same_store = refl;
    same_index = refl;
    same_view = λ j. view-served s k ch v j e;
  }

  -- A value from the store is served and kept, or its report blocks.
  serve_lem :
      (s : ValidationIterator) (k : Bytes) (val : ValueItem)
      → view s k ≡ version_value val
      → m.latest_before s.mv_store s.index k ≡ some val
      → reports s k ≡ is_estimate val
      → (Blocks s k × (serve k (some val) s ≡ (panic blocked, s)))
        ⊎ ((t : ValidationIterator) × (serve k (some val) s ≡ (ok (version_value val), t))
            × IsServed s k t)
  unfolding report_estimate new_estimate_abort
  serve_lem s k val e found asked = elim (Bool-cases (is_estimate val)) [
    | inr sure ↦ inr (
      kept s k (version_value val) s.abort_channel,
      rw sure refl,
      record {
        serves = kept-Serves s k (version_value val) s.abort_channel e;
        sent = λ w q h. absurd (ground (arith, h, asked, sure));
        quiet = λ h. refl;
      },
    )
    | inl est ↦ elim (Bool-cases (ltb (length s.abort_channel) s.capacity)) [
      | inr full ↦ inl ((asked ∙ est, ground (arith, full)), rw (est, full) refl)
      | inl room ↦
          let ch = s.abort_channel ++ (new_estimate_abort val.index ∷ []) in
          inr (
            kept s k (version_value val) ch,
            rw (est, room) refl,
            record {
              serves = kept-Serves s k (version_value val) ch e;
              sent = λ w q h.
                  (let same : val ≡ w = some_inj (sym found ∙ q) in
                    ap (λ (x : ValueItem). s.abort_channel ++ (new_estimate_abort x.index ∷ []))
                      same);
              quiet = λ h. absurd (ground (arith, h, asked, est));
            },
          )
    ]
  ]

  unmoved : (s : ValidationIterator) (k : Bytes) → reports s k ≡ false → IsServed s k s
  unmoved s k h = record {
    serves = Serves-refl s;
    sent = λ v e r. absurd (ground (arith, h, r));
    quiet = λ e. refl;
  }

  pub validation_value_lem :
      (s : ValidationIterator) (k : Bytes)
      → IsKnown s k
      → (Blocks s k × (validation_value k s ≡ (panic blocked, s)))
        ⊎ ((t : ValidationIterator) × (validation_value k s ≡ (ok (view s k), t)) × IsServed s k t)
  unfolding validation_value
  validation_value_lem s k known = elim (Option-cases (load k s.writeset)) [
    | inr (w, written) ↦ inr (s, rw written refl, unmoved s k (rw written refl))
    | inl unwritten ↦ elim (Option-cases (load k s.read_cache)) [
      | inr (v, cached) ↦
          inr (s, rw (unwritten, cached) refl, unmoved s k (rw (unwritten, cached) refl))
      | inl uncached ↦ elim (Option-cases (m.latest_before s.mv_store s.index k)) [
        | inl missing ↦ absurd (ground (arith, known, unwritten, missing))
        | inr (val, found) ↦
            let e : view s k ≡ version_value val = rw (unwritten, uncached, found) refl in
            let asked : reports s k ≡ is_estimate val = rw (unwritten, uncached, found) refl in
            let run : validation_value k s ≡ serve k (some val) s =
              ap (λ o. value_written k o s) unwritten
              ∙ ap (λ o. value_cached k o s) uncached
              ∙ ap (λ o. serve k o s) found in
            elim (serve_lem s k val e found asked) [
              | inl (b, r) ↦ inl (b, run ∙ r)
              | inr (t, r, served) ↦ inr (t, run ∙ r ∙ ap (λ x. (ok x, t)) (sym e), served)
            ]
      ]
    ]
  ]

  -- There is something to serve, and it is no estimate.
  abbrev sure : Option ValueItem → Bool
  sure none = false
  sure (some val) = not (is_estimate val)

  abbrev pub IsSure : ValidationIterator → Bytes → Type 0
  IsSure s k = (is_some (load k s.writeset) || sure (m.latest_before s.mv_store s.index k)) ≡ true

  IsSure-IsKnown : (s : ValidationIterator) (k : Bytes) → IsSure s k → IsKnown s k
  IsSure-IsKnown s k h = elim (Option-cases (m.latest_before s.mv_store s.index k)) [
    | inl e ↦ ground (arith, h, e)
    | inr (val, e) ↦ ground (arith, h, e)
  ]

  IsSure-reports : (s : ValidationIterator) (k : Bytes) → IsSure s k → reports s k ≡ false
  IsSure-reports s k h =
      by_cases (load k s.writeset) (load k s.read_cache) (m.latest_before s.mv_store s.index k) h
    where
      by_cases :
          (w c : Option Slice) (found : Option ValueItem)
          → (is_some w || sure found) ≡ true
          → asks w c found ≡ false
      by_cases (some v) c found h = refl
      by_cases none (some v) found h = refl
      by_cases none none none h = refl
      by_cases none none (some val) h = ground (arith, h)

  IsSure-Serves : (s t : ValidationIterator) (k : Bytes) → Serves s t → IsSure s k → IsSure t k
  IsSure-Serves s t k h known =
      ap (λ w. is_some (load k w) || sure (m.latest_before t.mv_store t.index k)) h.same_writeset
      ∙ ap (λ x. is_some (load k s.writeset) || sure (m.latest_before x t.index k)) h.same_store
      ∙ ap (λ x. is_some (load k s.writeset) || sure (m.latest_before s.mv_store x k)) h.same_index
      ∙ known

  -- A key that is behind no estimate, for which `shown` has what is served.
  abbrev pub IsShown : ValidationIterator → (Bytes → Slice) → Bytes → Type 0
  IsShown s shown k = IsSure s k × (shown k ≡ view s k)

  -- The reader of a validation is as the merged iterator needs it.
  pub validation_value-IsSteady :
      (s : ValidationIterator) (shown : Bytes → Slice)
      → IsSteady ValidationIterator validation_value no_op (Serves s) (IsShown s shown) shown
  validation_value-IsSteady s shown = record {
    reads = λ k t fits h.
        (let here = IsSure-Serves s t k h fits.0 in
          elim (validation_value_lem t k (IsSure-IsKnown t k here)) [
            | inl (b, r) ↦ absurd (ground (arith, b.0, IsSure-reports t k here))
            | inr (u, run, served) ↦ (
              u,
              run ∙ ap (λ x. (ok x, u)) (h.same_view k ∙ sym fits.1),
              Serves-trans s t u h served.serves,
            )
          ]);
    notes = λ k t h. h;
  }
