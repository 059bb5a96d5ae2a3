-- ===== src/GasKv/Costs.antt =====
-- What the operations of gaskv/store.go charge, and that they are otherwise the parent's.
use native.Mathlib.Nat.{add_assoc}
use mathlib.Core.Path.{ap₂}
use melodiasdk_io_store.Prelude.{
  ℕ, ◌+◌, ◌≡◌, refl, Result, ok, panic, length, arith, ap, ◌∙◌, Result-cases, Fault, ◌⊎◌, inl, inr,
}
use melodiasdk_io_store.Bytes.{Bytes, Slice}
use melodiasdk_io_store.Types.Validity.{assert_valid_key, assert_valid_value}
use melodiasdk_io_store.Types.KvStore.{KvStore}
use melodiasdk_io_store.Types.Gas.{GasMeter, GasConfig, Method, continue, ◌>>=◌}
use melodiasdk_io_store.GasKv.{Store, consume, get, set, delete, times, len, lift_parent}

module _ (m : GasMeter) (p : KvStore) where
  -- The state after charges that sum to `n`: sound, and as it was but for the gas.
  pub record IsCharged (s : Store m p) (n : ℕ) (s' : Store m p) : Type 0 where
    pub sound : m.IsSound s'.gas_meter
    pub used : m.used s'.gas_meter ≡ m.used s.gas_meter + n
    pub parent : s'.parent ≡ s.parent
    pub config : s'.gas_config ≡ s.gas_config

  consume-IsCharged :
      (cost : GasConfig → ℕ) (s : Store m p)
      → m.IsSound s.gas_meter
      → (consume m p cost s).0 ≡ ok tt
      → IsCharged s (cost s.gas_config) (consume m p cost s).1
  unfolding consume
  consume-IsCharged cost s h e =
      let (i, u) = m.consume_lem s.gas_meter (cost s.gas_config) h e in
      record { sound = i; used = u; parent = refl; config = refl }

  -- A method that starts with a charge and returns has made the charge, and its rest returned.
  pub after_charge :
      {A : Type 0} (cost : GasConfig → ℕ) (f : Unit {0} → Method (Store m p) A) (s s' : Store m p)
      (a : A)
      → m.IsSound s.gas_meter
      → (consume m p cost >>= f) s ≡ (ok a, s')
      → (s1 : Store m p) × IsCharged s (cost s.gas_config) s1 × (f tt s1 ≡ (ok a, s'))
  after_charge cost f s s' a h e = elim (Result-cases (consume m p cost s).0) [
    | inl (u, q) ↦ ((consume m p cost s).1, consume-IsCharged cost s h q, ground (arith, q))
    | inr (x, q) ↦ absurd (ground (arith, q))
  ]

  pub after_lift :
      {A B : Type 0} (r : Result B) (f : B → Method (Store m p) A) (s s' : Store m p) (a : A)
      → ((λ t. (r, t)) >>= f) s ≡ (ok a, s')
      → (b : B) × (r ≡ ok b) × (f b s ≡ (ok a, s'))
  after_lift (ok b) f s s' a e = (b, refl, e)
  after_lift (panic x) f s s' a e = absurd (ground arith)

  pub IsCharged-start : (s : Store m p) → m.IsSound s.gas_meter → IsCharged s 0 s
  IsCharged-start s h = record { sound = h; used = omega arith; parent = refl; config = refl }

  -- One more charge after others.
  pub charge_more :
      {A : Type 0} (cost : GasConfig → ℕ) (f : Unit {0} → Method (Store m p) A) (s t s' : Store m p)
      (n : ℕ) (a : A)
      → IsCharged s n t
      → (consume m p cost >>= f) t ≡ (ok a, s')
      → (u : Store m p) × IsCharged s (n + cost s.gas_config) u × (f tt u ≡ (ok a, s'))
  charge_more cost f s t s' n a x e =
      let (u, y, e') = after_charge cost f t s' a x.sound e in
      (
        u,
        record {
          sound = y.sound;
          used =
              y.used
              ∙ ap₂ ◌+◌ x.used (ap cost x.config)
              ∙ add_assoc (m.used s.gas_meter) n (cost s.gas_config);
          parent = y.parent ∙ x.parent;
          config = y.config ∙ x.config;
        },
        e',
      )

  written :
      (s s' : Store m p) (left : p.State) (r : Result p.State)
      → lift_parent m p s left r ≡ (ok tt, s')
      → (r ≡ ok s'.parent) × (s'.gas_meter ≡ s.gas_meter)
  written s s' left (ok q) e = ground arith
  written s s' left (panic x) e = absurd (ground arith)

  -- `Set` that returns has written through to the parent, after it charged the flat cost and the cost of
  -- each byte of the key and of the value.
  pub set_cost :
      (s s' : Store m p) (key : Bytes) (value : Slice)
      → m.IsSound s.gas_meter
      → set m p key value s ≡ (ok tt, s')
      → (p.set s.parent key value ≡ ok s'.parent)
        × (m.used s'.gas_meter
            ≡ m.used s.gas_meter
              + s.gas_config.write_cost_flat
              + times s.gas_config.write_cost_per_byte (length key)
              + times s.gas_config.write_cost_per_byte (len value))
  unfolding set
  set_cost s s' key value h e =
      let (_, _, e1) = after_lift (assert_valid_key key) _ s s' tt e in
      let (_, _, e2) = after_lift (assert_valid_value value) _ s s' tt e1 in
      let (s1, c1, e3) =
        charge_more (λ c. c.write_cost_flat) _ s s s' 0 tt (IsCharged-start s h) e2 in
      let (s2, c2, e4) =
        charge_more (λ c. times c.write_cost_per_byte (length key)) _ s s1 s' _ tt c1 e3 in
      let (s3, c3, e5) =
        charge_more (λ c. times c.write_cost_per_byte (len value)) _ s s2 s' _ tt c2 e4 in
      let (w, g) =
        written s3 s' (p.failed_set s3.parent key value) (p.set s3.parent key value) e5 in
      (rw (← c3.parent) w, ap m.used g ∙ omega (arith, c3.used))

  -- `Delete` that returns has deleted in the parent, after it charged its flat cost.
  pub delete_cost :
      (s s' : Store m p) (key : Bytes)
      → m.IsSound s.gas_meter
      → delete m p key s ≡ (ok tt, s')
      → (p.delete s.parent key ≡ ok s'.parent)
        × (m.used s'.gas_meter ≡ m.used s.gas_meter + s.gas_config.delete_cost)
  unfolding delete
  delete_cost s s' key h e =
      let (s1, c1, e1) = charge_more (λ c. c.delete_cost) _ s s s' 0 tt (IsCharged-start s h) e in
      let (w, g) = written s1 s' (p.failed_delete s1.parent key) (p.delete s1.parent key) e1 in
      (rw (← c1.parent) w, ap m.used g ∙ omega (arith, c1.used))

  get_done :
      (s s1 s3 s' : Store m p) (key : Bytes) (v value : Slice)
      → p.get s1.parent key ≡ ok v
      → s1.parent ≡ s.parent
      → IsCharged s
          (0
            + s.gas_config.read_cost_flat
            + times s.gas_config.read_cost_per_byte (length key)
            + times s.gas_config.read_cost_per_byte (len v))
          s3
      → ◌≡◌ {A = Result Slice × Store m p} (ok v, s3) (ok value, s')
      → (p.get s.parent key ≡ ok value)
        × (s'.parent ≡ s.parent)
        × (m.used s'.gas_meter
            ≡ m.used s.gas_meter
              + s.gas_config.read_cost_flat
              + times s.gas_config.read_cost_per_byte (length key)
              + times s.gas_config.read_cost_per_byte (len value))
  get_done s s1 s3 s' key v value ev e1 c e =
      let same : v ≡ value = ground arith in
      let q : s' ≡ s3 = ground arith in
      (
        rw (← e1) (ev ∙ ap ok same),
        ap (λ (x : Store m p). x.parent) q ∙ c.parent,
        ap (λ (x : Store m p). m.used x.gas_meter) q
            ∙ c.used
            ∙ ap
                (λ (x : Slice).
                  m.used s.gas_meter
                  + (0
                      + s.gas_config.read_cost_flat
                      + times s.gas_config.read_cost_per_byte (length key)
                      + times s.gas_config.read_cost_per_byte (len x)))
                same
            ∙ omega arith,
      )

  -- `Get` that returns gives the parent's value, leaves the parent, and charged the flat cost and the cost
  -- of each byte of the key and of the value that was read.
  pub get_cost :
      (s s' : Store m p) (key : Bytes) (value : Slice)
      → m.IsSound s.gas_meter
      → get m p key s ≡ (ok value, s')
      → (p.get s.parent key ≡ ok value)
        × (s'.parent ≡ s.parent)
        × (m.used s'.gas_meter
            ≡ m.used s.gas_meter
              + s.gas_config.read_cost_flat
              + times s.gas_config.read_cost_per_byte (length key)
              + times s.gas_config.read_cost_per_byte (len value))
  unfolding get
  get_cost s s' key value h e =
      let (s1, c1, e1) =
        charge_more (λ c. c.read_cost_flat) _ s s s' 0 value (IsCharged-start s h) e in
      let (v, ev, e2) = after_lift (p.get s1.parent key) _ s1 s' value e1 in
      let (s2, c2, e3) =
        charge_more (λ c. times c.read_cost_per_byte (length key)) _ s s1 s' _ value c1 e2 in
      let (s3, c3, e4) =
        charge_more (λ c. times c.read_cost_per_byte (len v)) _ s s2 s' _ value c2 e3 in
      get_done s s1 s3 s' key v value ev c1.parent c3 e4

  -- A method that returns, or fails before it calls the parent, or in its one call of the parent, which is `call` and
  -- leaves `left` where it panics.
  abbrev Fails :
      (p.State → p.State) → (p.State → Result p.State) → Method (Store m p) (Unit {0}) → Type 0
  Fails left call f =
      (s : Store m p) (x : Fault)
      → (f s).0 ≡ panic x
      → ((f s).1.parent ≡ s.parent) ⊎ ((call s.parent ≡ panic x) × ((f s).1.parent ≡ left s.parent))

  Fails-charge :
      (left : p.State → p.State) (call : p.State → Result p.State) (cost : GasConfig → ℕ)
      (f : Unit {0} → Method (Store m p) (Unit {0}))
      → Fails left call (f tt)
      → Fails left call (consume m p cost >>= f)
  unfolding consume
  Fails-charge left call cost f k s x e =
      by_result (m.consume (cost s.gas_config) s.gas_meter).0
        (m.consume (cost s.gas_config) s.gas_meter).1 e
    where
      by_result :
          (r : Result (Unit {0})) (g : m.Meter)
          → (continue r (record s { gas_meter = g }) f).0 ≡ panic x
          → ((continue r (record s { gas_meter = g }) f).1.parent ≡ s.parent)
            ⊎ ((call s.parent ≡ panic x)
                × ((continue r (record s { gas_meter = g }) f).1.parent ≡ left s.parent))
      by_result (ok u) g e = k (record s { gas_meter = g }) x e
      by_result (panic y) g e = inl refl

  Fails-lift :
      {B : Type 0} (left : p.State → p.State) (call : p.State → Result p.State) (r : Result B)
      (f : B → Method (Store m p) (Unit {0}))
      → ((b : B) → Fails left call (f b))
      → Fails left call ((λ s. (r, s)) >>= f)
  Fails-lift left call (ok b) f k s x e = k b s x e
  Fails-lift left call (panic y) f k s x e = inl refl

  Fails-call :
      (left : p.State → p.State) (call : p.State → Result p.State)
      → Fails left call (λ s. lift_parent m p s (left s.parent) (call s.parent))
  Fails-call left call s x e = by_result (call s.parent) e
    where
      by_result :
          (r : Result p.State)
          → (lift_parent m p s (left s.parent) r).0 ≡ panic x
          → ((lift_parent m p s (left s.parent) r).1.parent ≡ s.parent)
            ⊎ ((r ≡ panic x) × ((lift_parent m p s (left s.parent) r).1.parent ≡ left s.parent))
      by_result (ok q) e = absurd (ground arith)
      by_result (panic y) e = inr (ground arith)

  -- What a method with one call of the parent, `result`, leaves: it returns, or it panics and has not changed the
  -- parent, or the call panicked and the parent is what that left.
  abbrev pub Ends : Result p.State → p.State → Store m p → Result (Unit {0}) × Store m p → Type 0
  Ends result left s (r, t) =
      (r ≡ ok tt)
      ⊎ ((x : Fault) × (r ≡ panic x)
          × ((t.parent ≡ s.parent) ⊎ ((result ≡ panic x) × (t.parent ≡ left))))

  Ends-Fails :
      (left : p.State → p.State) (call : p.State → Result p.State)
      (f : Method (Store m p) (Unit {0})) (s : Store m p)
      → Fails left call f
      → Ends (call s.parent) (left s.parent) s (f s)
  Ends-Fails left call f s k = elim (Result-cases (f s).0) [
    | inl (tt, e) ↦ inl e
    | inr (x, e) ↦ inr (x, e, k s x e)
  ]

  -- A `Set` or `Delete` that panics has left the parent unchanged, unless it is the parent's own `Set` or `Delete` of
  -- the same key and value that panicked; then the parent is as that left it.
  pub panic_writes_nothing :
      (key : Bytes) (value : Slice) (s : Store m p)
      → Ends (p.set s.parent key value) (p.failed_set s.parent key value) s (set m p key value s)
        × Ends (p.delete s.parent key) (p.failed_delete s.parent key) s (delete m p key s)
  unfolding set delete
  panic_writes_nothing key value s =
      let write = λ (q : p.State). p.set q key value in
      let failed = λ (q : p.State). p.failed_set q key value in
      let remove = λ (q : p.State). p.delete q key in
      let undeleted = λ (q : p.State). p.failed_delete q key in
      (
        Ends-Fails failed write (set m p key value) s (
            Fails-lift failed write (assert_valid_key key) _ (λ _.
              Fails-lift failed write (assert_valid_value value) _ (λ _.
                Fails-charge failed write _ _ (
                  Fails-charge failed write _ _
                    (Fails-charge failed write _ _ (Fails-call failed write)))))),
        Ends-Fails undeleted remove (delete m p key) s
            (Fails-charge undeleted remove _ _ (Fails-call undeleted remove)),
      )
