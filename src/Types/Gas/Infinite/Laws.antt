-- ===== src/Types/Gas/Infinite/Laws.antt =====
-- The unlimited meter of types/gas.go, alone and beside a limited one.
use melodiasdk_io_store.Prelude.{
  ℕ, ◌+◌, ◌-◌, ◌≤◌, ◌≡◌, ltb, leb, some, ok, panic, if◌then◌else◌, gas_overflow, negative_gas,
  arith, ==_refl, Bool-cases, inl, inr, ap, fun_ext,
}
use melodiasdk_io_store.Types.Gas.{max_gas, Counter, atomic, Counters, GasMeter}
use melodiasdk_io_store.Types.Gas.Basic
use melodiasdk_io_store.Types.Gas.Basic.{BasicGasMeter}
use melodiasdk_io_store.Types.Gas.Basic.Laws
use melodiasdk_io_store.Types.Gas.Basic.Laws.{used_of, IsSoundOf}
use melodiasdk_io_store.Types.Gas.Infinite.{InfiniteGasMeter, put_counter, consume_gas, refund_gas}

abbrev pub used : InfiniteGasMeter → ℕ
used g = used_of (g.consumed g.namespace_id)

abbrev pub IsSound : InfiniteGasMeter → Type 0
IsSound g = IsSoundOf (g.consumed g.namespace_id)

abbrev pub charged : InfiniteGasMeter → ℕ → InfiniteGasMeter
charged g n = put_counter (atomic n) g

put_put : (g : InfiniteGasMeter) (c e : Counter) → put_counter e (put_counter c g) ≡ put_counter e g
put_put g c e = ap (λ (m : Counters). record g { consumed = m }) (fun_ext (λ j. ground arith))

put_same :
    (g : InfiniteGasMeter) (c : Counter) → g.consumed g.namespace_id ≡ some c → put_counter c g ≡ g
put_same g c h = ap (λ (m : Counters). record g { consumed = m }) (fun_ext (λ j. ground arith))

-- `ConsumeGas` and `RefundGas` of the unlimited meter on every branch: a charge panics only where the sum
-- passes the `uint64` range, a refund only where more is given back than was used; a call that panics
-- leaves the sum as it was, any other adds or takes off the amount.
pub infinite_gas_lem :
    (g : InfiniteGasMeter) (amount : ℕ)
    → IsSound g
    → (consume_gas amount g ≡ (
        if ltb max_gas (used g + amount)
        then (panic gas_overflow, charged g (used g))
        else (ok tt, charged g (used g + amount))))
      × (refund_gas amount g ≡ (
          if ltb (used g) amount
          then (panic negative_gas, charged g (used g))
          else (ok tt, charged g (used g - amount))))
unfolding consume_gas refund_gas
infinite_gas_lem g amount h =
    let same = put_same g (atomic (used g)) in
    (
      ground (arith, put_put g (atomic 0) (atomic amount), same, ==_refl g.namespace_id),
      ground (arith, put_put g (atomic 0) (atomic 0), same, ==_refl g.namespace_id),
    )

-- The unlimited meter over the counters of a limited one.
abbrev pub unlimited : BasicGasMeter → InfiniteGasMeter
unlimited g = record { consumed = g.consumed; namespace_id = g.namespace_id }

-- As long as the sum fits a `uint64`, the unlimited meter accepts every charge, also one that the limited
-- meter rejects for its limit, and both meters hold the same counters afterwards.
pub infinite-basic :
    (g : BasicGasMeter) (amount : ℕ)
    → Laws.IsSound g
    → Laws.used g + amount ≤ max_gas
    → ((consume_gas amount (unlimited g)).0 ≡ ok tt)
      × ((consume_gas amount (unlimited g)).1.consumed ≡ (Basic.consume_gas amount g).1.consumed)
infinite-basic g amount h fits =
    ground (arith, infinite_gas_lem (unlimited g) amount h.counter, Laws.consume_gas_lem g amount h)

consume_gas-IsSound :
    (g : InfiniteGasMeter) (amount : ℕ)
    → IsSound g
    → (consume_gas amount g).0 ≡ ok tt
    → IsSound (consume_gas amount g).1 × (used (consume_gas amount g).1 ≡ used g + amount)
consume_gas-IsSound g amount h e = elim (Bool-cases (leb (used g + amount) max_gas)) [
  | inl fits ↦ ground (arith, infinite_gas_lem g amount h, ==_refl g.namespace_id)
  | inr over ↦ absurd (ground (arith, infinite_gas_lem g amount h))
]

-- The unlimited meter as a `GasMeter`.
pub infinite_gas_meter : GasMeter
infinite_gas_meter = record {
  Meter = InfiniteGasMeter;
  IsSound = IsSound;
  used = used;
  consume = consume_gas;
  consume_lem = consume_gas-IsSound;
}
