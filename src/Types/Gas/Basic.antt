-- ===== src/Types/Gas/Basic.antt =====
-- types/gas.go: `basicGasMeter`, a meter with a limit.
pub mod Laws
use melodiasdk_io_store.Prelude.{
  ℕ, ◌+◌, ◌-◌, ◌%◌, ltb, leb, Bool, true, false, Option, none, some, Result, ok, panic,
  if◌then◌else◌, gas_overflow, out_of_gas, negative_gas, type_assertion, Fault,
}
use melodiasdk_io_store.Types.Gas.{
  two_64, max_gas, Counter, atomic, bare, Counters, put, Method, ◌>>=◌, ◌>>◌, pure, raise,
  load_counter,
}

pub record BasicGasMeter : Type 0 where
  pub limit : ℕ
  pub consumed : Counters
  pub namespace_id : ℕ

unfoldable pub new_gas_meter : ℕ → BasicGasMeter
new_gas_meter limit = record { limit = limit; consumed = λ n. none; namespace_id = 0 }

unfoldable pub with_namespace_id : ℕ → BasicGasMeter → BasicGasMeter
with_namespace_id n g = record g { namespace_id = n }

abbrev pub put_counter : Counter → BasicGasMeter → BasicGasMeter
put_counter c g = record g { consumed = put g.consumed g.namespace_id c }

unfoldable pub get_consumed : Method BasicGasMeter ℕ
get_consumed g = elim (g.consumed g.namespace_id) [
  | some gas ↦ (load_counter gas, g)
  | none ↦ (ok 0, put_counter (atomic 0) g)
]

unfoldable pub gas_consumed : Method BasicGasMeter ℕ
unfolding get_consumed
gas_consumed = get_consumed

unfoldable pub gas_remaining : Method BasicGasMeter ℕ
unfolding get_consumed
gas_remaining g =
    (do consumed ← get_consumed; pure (if ltb g.limit consumed then 0 else g.limit - consumed)) g

unfoldable pub gas_consumed_to_limit : Method BasicGasMeter ℕ
unfolding get_consumed
gas_consumed_to_limit g =
    (do consumed ← get_consumed; pure (if ltb g.limit consumed then g.limit else consumed)) g

-- `if gas, ok := g.consumed.Load(…); ok { gas.(*atomic.Uint64).Add(amount) }`, with the sum of the
-- counter given as a function.
abbrev pub add_to_counter : (ℕ → ℕ) → Method BasicGasMeter (Unit {0})
add_to_counter f g = elim (g.consumed g.namespace_id) [
  | some gas ↦ elim gas [
    | atomic n ↦ (ok tt, put_counter (atomic (f n)) g)
    | bare n ↦ (panic type_assertion, g)
  ]
  | none ↦ (ok tt, g)
]

-- Where the new sum is checked against the limit.
abbrev pub check_limit : ℕ → Method BasicGasMeter (Unit {0})
check_limit new_consumed g = if ltb g.limit new_consumed then (panic out_of_gas, g) else (ok tt, g)

-- What follows the test for an overflow in `ConsumeGas`.
unfoldable pub charge : ℕ → Bool → Method BasicGasMeter (Unit {0})
unfolding get_consumed
charge amount true g = (panic gas_overflow, put_counter (bare max_gas) g)
charge amount false g =
    (do
      add_to_counter (λ n. (n + amount) % two_64)
      new_consumed ← get_consumed
      check_limit new_consumed)
      g

unfoldable pub consume_gas : ℕ → Method BasicGasMeter (Unit {0})
unfolding get_consumed charge
consume_gas amount = do consumed ← get_consumed; charge amount (ltb (max_gas - consumed) amount)

-- What follows the test in `RefundGas`; `Add(-amount)` on a `uint64`.
unfoldable pub refund : ℕ → Bool → Method BasicGasMeter (Unit {0})
refund amount true = raise negative_gas
refund amount false = add_to_counter (λ n. (n + (two_64 - amount)) % two_64)

unfoldable pub refund_gas : ℕ → Method BasicGasMeter (Unit {0})
unfolding get_consumed refund
refund_gas amount = do consumed ← get_consumed; refund amount (ltb consumed amount)

unfoldable pub is_past_limit : Method BasicGasMeter Bool
unfolding get_consumed
is_past_limit g = (do consumed ← get_consumed; pure (ltb g.limit consumed)) g

unfoldable pub is_out_of_gas : Method BasicGasMeter Bool
unfolding get_consumed
is_out_of_gas g = (do consumed ← get_consumed; pure (leb g.limit consumed)) g
