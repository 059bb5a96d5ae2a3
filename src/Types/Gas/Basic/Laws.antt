-- ===== src/Types/Gas/Basic/Laws.antt =====
-- The limited meter of types/gas.go: what each method does to the gas of the current namespace.
use melodiasdk_io_store.Prelude.{
  ℕ, ◌+◌, ◌-◌, ◌≤◌, ◌<◌, ◌≡◌, ◌≢◌, refl, ltb, leb, Option, none, some, ok, panic, if◌then◌else◌,
  gas_overflow, out_of_gas, negative_gas, type_assertion, arith, ==_refl, Bool-cases, ◌⊎◌, inl, inr,
  ap, fun_ext, List, [], ◌∷◌, ◌↔◌,
}
use melodiasdk_io_store.Types.Gas.{
  max_gas, Counter, atomic, bare, Counters, Method, GasMeter, ◌>>=◌, ◌>>◌, pure,
}
use melodiasdk_io_store.Types.Gas.Basic.{
  BasicGasMeter, gas_remaining, gas_consumed_to_limit, consume_gas, refund_gas, is_past_limit,
  is_out_of_gas, put_counter,
}

-- The gas that a counter holds; a namespace without one has used nothing.
abbrev pub used_of : Option Counter → ℕ
used_of none = 0
used_of (some (atomic n)) = n
used_of (some (bare n)) = n

abbrev pub used : BasicGasMeter → ℕ
used g = used_of (g.consumed g.namespace_id)

-- The counter can be read, and holds a `uint64`.
abbrev pub IsSoundOf : Option Counter → Type 0
IsSoundOf none = Unit
IsSoundOf (some (atomic n)) = n ≤ max_gas
IsSoundOf (some (bare n)) = ⊥

pub record IsSound (g : BasicGasMeter) : Type 0 where
  pub limit_fits : g.limit ≤ max_gas
  pub counter : IsSoundOf (g.consumed g.namespace_id)

-- The meter after `amount` more is charged, or after it is set to a new sum.
abbrev pub charged : BasicGasMeter → ℕ → BasicGasMeter
charged g n = put_counter (atomic n) g

put_put : (g : BasicGasMeter) (c e : Counter) → put_counter e (put_counter c g) ≡ put_counter e g
put_put g c e = ap (λ (m : Counters). record g { consumed = m }) (fun_ext (λ j. ground arith))

-- `ConsumeGas` on every branch. A sum that passes the `uint64` range panics and leaves a bare value in
-- the map. A sum that passes the limit panics, and is recorded. Any other is recorded, and the call
-- returns.
pub consume_gas_lem :
    (g : BasicGasMeter) (amount : ℕ)
    → IsSound g
    → consume_gas amount g ≡ (
        if ltb max_gas (used g + amount)
        then (panic gas_overflow, put_counter (bare max_gas) g)
        else if ltb g.limit (used g + amount)
        then (panic out_of_gas, charged g (used g + amount))
        else (ok tt, charged g (used g + amount)))
unfolding consume_gas
consume_gas_lem g amount h = ground (
  arith,
  put_put g (atomic 0) (atomic amount),
  put_put g (atomic 0) (bare max_gas),
  ==_refl g.namespace_id,
)

put_same :
    (g : BasicGasMeter) (c : Counter) → g.consumed g.namespace_id ≡ some c → put_counter c g ≡ g
put_same g c h = ap (λ (m : Counters). record g { consumed = m }) (fun_ext (λ j. ground arith))

-- `RefundGas` on both branches: it panics where more is given back than was used, and otherwise takes
-- the amount off the sum.
pub refund_gas_lem :
    (g : BasicGasMeter) (amount : ℕ)
    → IsSound g
    → refund_gas amount g ≡ (
        if ltb (used g) amount
        then (panic negative_gas, charged g (used g))
        else (ok tt, charged g (used g - amount)))
unfolding refund_gas
refund_gas_lem g amount h =
    ground
      (arith, put_put g (atomic 0) (atomic 0), put_same g (atomic (used g)), ==_refl g.namespace_id)

-- The readers of a meter do not panic on a sound counter, and leave the sum as it is. What remains and
-- what was used up to the limit add up to the limit, and the two tests compare the sum with it.
pub readers_lem :
    (g : BasicGasMeter)
    → IsSound g
    → (r : ℕ) × (c : ℕ) × (gas_remaining g ≡ (ok r, charged g (used g)))
      × (gas_consumed_to_limit g ≡ (ok c, charged g (used g)))
      × (r + c ≡ g.limit)
      × (is_past_limit g ≡ (ok (ltb g.limit (used g)), charged g (used g)))
      × (is_out_of_gas g ≡ (ok (leb g.limit (used g)), charged g (used g)))
unfolding gas_remaining gas_consumed_to_limit is_past_limit is_out_of_gas
readers_lem g h =
    let same = put_same g (atomic (used g)) in
    (
      g.limit - used g,
      (if ltb g.limit (used g) then g.limit else used g),
      ground (arith, same),
      ground (arith, same),
      ground arith,
      ground (arith, same),
      ground (arith, same),
    )

charged-IsSound : (g : BasicGasMeter) (n : ℕ) → IsSound g → n ≤ max_gas → IsSound (charged g n)
charged-IsSound g n h le = record {
  limit_fits = h.limit_fits;
  counter = ground (arith, ==_refl g.namespace_id);
}

used-charged : (g : BasicGasMeter) (n : ℕ) → used (charged g n) ≡ n
used-charged g n = ground (arith, ==_refl g.namespace_id)

consume_within :
    (g : BasicGasMeter) (amount : ℕ)
    → IsSound g
    → used g + amount ≤ g.limit
    → consume_gas amount g ≡ (ok tt, charged g (used g + amount))
consume_within g amount h le = ground (arith, consume_gas_lem g amount h)

consume_beyond :
    (g : BasicGasMeter) (amount : ℕ)
    → IsSound g
    → g.limit < used g + amount
    → ¬ ((consume_gas amount g).0 ≡ ok tt)
consume_beyond g amount h le = ground (arith, consume_gas_lem g amount h)

-- Gas that was charged within the limit and is refunded leaves the sum as it was.
pub refund-consume :
    (g : BasicGasMeter) (amount : ℕ)
    → IsSound g
    → used g + amount ≤ g.limit
    → (consume_gas amount >>= λ _. refund_gas amount) g ≡ (ok tt, charged g (used g))
refund-consume g amount h le =
    let n = used g + amount in
    let fits : n ≤ max_gas = omega (arith, h.limit_fits) in
    rw (consume_within g amount h le) (
      ground (
        arith,
        refund_gas_lem (charged g n) amount (charged-IsSound g n h fits),
        used-charged g n,
        put_put g (atomic n) (atomic (used g)),
      ))

unfoldable pub consume_all : List ℕ → Method BasicGasMeter (Unit {0})
consume_all [] = pure tt
consume_all (a ∷ l) = do consume_gas a; consume_all l

abbrev pub sum : List ℕ → ℕ
sum [] = 0
sum (a ∷ l) = a + sum l

-- What a row of charges promises.
abbrev pub Charges : List ℕ → BasicGasMeter → Type 0
Charges l g =
    (((consume_all l g).0 ≡ ok tt) ↔ (used g + sum l ≤ g.limit))
    × (used g + sum l ≤ g.limit → used (consume_all l g).1 ≡ used g + sum l)

consume_all_within :
    (a : ℕ) (l : List ℕ) (g : BasicGasMeter)
    → IsSound g
    → used g + a ≤ g.limit
    → Charges l (charged g (used g + a))
    → Charges (a ∷ l) g
unfolding consume_all
consume_all_within a l g h le ih =
    rw (consume_within g a h le) (ground (arith, ih, used-charged g (used g + a)))

consume_all_beyond :
    (a : ℕ) (l : List ℕ) (g : BasicGasMeter) → IsSound g → g.limit < used g + a → Charges (a ∷ l) g
unfolding consume_all
consume_all_beyond a l g h lt = ground (arith, consume_beyond g a h lt)

consume_all-Charges : (l : List ℕ) (g : BasicGasMeter) → IsSound g → used g ≤ g.limit → Charges l g
unfolding consume_all
consume_all-Charges [] g h le = ((λ e. omega arith, λ e. refl), λ e. omega arith)
consume_all-Charges (a ∷ l) g h le = elim (Bool-cases (leb (used g + a) g.limit)) [
  | inl fits ↦ consume_all_within a l g h (ground arith) (
      consume_all-Charges l (charged g (used g + a))
        (charged-IsSound g (used g + a) h (ground arith))
        (ground (arith, used-charged g (used g + a))))
  | inr over ↦ consume_all_beyond a l g h (ground arith)
]

-- A row of charges on a meter that is within its limit: the whole sum is within the limit, the row returns
-- and the meter holds that sum, or the sum passes the limit and the row does not return.
pub consume_all_lem :
    (l : List ℕ) (g : BasicGasMeter)
    → IsSound g
    → used g ≤ g.limit
    → ((used g + sum l ≤ g.limit)
        × ((consume_all l g).0 ≡ ok tt)
        × (used (consume_all l g).1 ≡ used g + sum l))
      ⊎ ((g.limit < used g + sum l) × ((consume_all l g).0 ≢ ok tt))
consume_all_lem l g h le =
    let c = consume_all-Charges l g h le in
    elim (Bool-cases (leb (used g + sum l) g.limit)) [
      | inl fits ↦ let w : used g + sum l ≤ g.limit = ground arith in inl (w, c.0.1 w, c.1 w)
      | inr over ↦ inr (ground arith, λ e. absurd (ground (arith, c.0.0 e)))
    ]

-- After the panic for an overflow the counter cannot be read: every later charge and the reading that is
-- meant for recovery panic on the type of the stored value.
pub overflow_poisons :
    (g : BasicGasMeter) (amount : ℕ)
    → IsSound g
    → max_gas < used g + amount
    → (m : BasicGasMeter) × (consume_gas amount g ≡ (panic gas_overflow, m))
      × ((a : ℕ) → consume_gas a m ≡ (panic type_assertion, m))
      × (gas_consumed_to_limit m ≡ (panic type_assertion, m))
      × ((a : ℕ) → refund_gas a m ≡ (panic type_assertion, m))
overflow_poisons g amount h over =
    let bad = put_counter (bare max_gas) g in
    (
      bad,
      ground (arith, consume_gas_lem g amount h),
      λ a. unfold consume_gas in ground (arith, ==_refl g.namespace_id),
      unfold gas_consumed_to_limit in ground (arith, ==_refl g.namespace_id),
      λ a. unfold refund_gas in ground (arith, ==_refl g.namespace_id),
    )

pub consume_gas-IsSound :
    (g : BasicGasMeter) (amount : ℕ)
    → IsSound g
    → (consume_gas amount g).0 ≡ ok tt
    → IsSound (consume_gas amount g).1 × (used (consume_gas amount g).1 ≡ used g + amount)
consume_gas-IsSound g amount h e = elim (Bool-cases (leb (used g + amount) g.limit)) [
  | inl fits ↦
      rw (consume_within g amount h (ground arith))
        (charged-IsSound g (used g + amount) h (ground arith), used-charged g (used g + amount))
  | inr over ↦ absurd (consume_beyond g amount h (ground arith) e)
]

-- The limited meter as a `GasMeter`.
abbrev pub basic_gas_meter : GasMeter
basic_gas_meter = record {
  Meter = BasicGasMeter;
  IsSound = IsSound;
  used = used;
  consume = consume_gas;
  consume_lem = consume_gas-IsSound;
}
