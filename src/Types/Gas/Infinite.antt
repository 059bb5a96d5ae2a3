-- ===== src/Types/Gas/Infinite.antt =====
-- types/gas.go: `infiniteGasMeter`, a meter without a limit.
pub mod Laws
use melodiasdk_io_store.Prelude.{
  ℕ, ◌+◌, ◌-◌, ◌%◌, ltb, leb, Bool, true, false, Option, none, some, Result, ok, panic,
  if◌then◌else◌, gas_overflow, out_of_gas, negative_gas, type_assertion, Fault,
}
use melodiasdk_io_store.Types.Gas.{
  two_64, max_gas, Counter, atomic, bare, Counters, put, Method, ◌>>=◌, ◌>>◌, pure, raise,
  load_counter,
}

pub record InfiniteGasMeter : Type 0 where
  pub consumed : Counters
  pub namespace_id : ℕ

unfoldable pub new_infinite_gas_meter : InfiniteGasMeter
new_infinite_gas_meter = record { consumed = λ n. none; namespace_id = 0 }

unfoldable pub with_namespace_id : ℕ → InfiniteGasMeter → InfiniteGasMeter
with_namespace_id n g = record g { namespace_id = n }

abbrev pub put_counter : Counter → InfiniteGasMeter → InfiniteGasMeter
put_counter c g = record g { consumed = put g.consumed g.namespace_id c }

unfoldable pub get_consumed : Method InfiniteGasMeter ℕ
get_consumed g = elim (g.consumed g.namespace_id) [
  | some gas ↦ (load_counter gas, g)
  | none ↦ (ok 0, put_counter (atomic 0) g)
]

unfoldable pub gas_consumed : Method InfiniteGasMeter ℕ
unfolding get_consumed
gas_consumed = get_consumed

unfoldable pub gas_consumed_to_limit : Method InfiniteGasMeter ℕ
unfolding get_consumed
gas_consumed_to_limit = get_consumed

unfoldable pub gas_remaining : Method InfiniteGasMeter ℕ
gas_remaining = pure max_gas

unfoldable pub limit : Method InfiniteGasMeter ℕ
limit = pure max_gas

-- `if gas, ok := g.consumed.Load(…); ok { gas.(*atomic.Uint64).Add(amount) }`, with the sum of the
-- counter given as a function.
abbrev pub add_to_counter : (ℕ → ℕ) → Method InfiniteGasMeter (Unit {0})
add_to_counter f g = elim (g.consumed g.namespace_id) [
  | some gas ↦ elim gas [
    | atomic n ↦ (ok tt, put_counter (atomic (f n)) g)
    | bare n ↦ (panic type_assertion, g)
  ]
  | none ↦ (ok tt, g)
]

-- What follows the test for an overflow in `ConsumeGas`.
unfoldable pub charge : ℕ → Bool → Method InfiniteGasMeter (Unit {0})
charge amount true = raise gas_overflow
charge amount false = add_to_counter (λ n. (n + amount) % two_64)

unfoldable pub consume_gas : ℕ → Method InfiniteGasMeter (Unit {0})
unfolding get_consumed charge
consume_gas amount = do consumed ← get_consumed; charge amount (ltb (max_gas - consumed) amount)

-- What follows the test in `RefundGas`; `Add(-amount)` on a `uint64`.
unfoldable pub refund : ℕ → Bool → Method InfiniteGasMeter (Unit {0})
refund amount true = raise negative_gas
refund amount false = add_to_counter (λ n. (n + (two_64 - amount)) % two_64)

unfoldable pub refund_gas : ℕ → Method InfiniteGasMeter (Unit {0})
unfolding get_consumed refund
refund_gas amount = do consumed ← get_consumed; refund amount (ltb consumed amount)

unfoldable pub is_past_limit : Method InfiniteGasMeter Bool
is_past_limit = pure false

unfoldable pub is_out_of_gas : Method InfiniteGasMeter Bool
is_out_of_gas = pure false
