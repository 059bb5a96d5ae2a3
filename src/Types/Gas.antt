-- ===== src/Types/Gas.antt =====
-- types/gas.go: what the two gas meters share. A meter's `consumed` is a `sync.Map` from a namespace to
-- a pointer to an atomic counter; the one place that stores a plain `Gas` value there is kept. A method
-- changes the meter and may panic: what was written before the panic stays written. A meter is used
-- by one caller at a time, so each method is one step.
pub mod Basic
pub mod Infinite
use melodiasdk_io_store.Prelude.{
  ℕ, suc, ◌+◌, ◌*◌, ◌^◌, ◌-◌, ◌%◌, ◌==◌, Option, none, some, Result, ok, panic, if◌then◌else◌,
  Fault, type_assertion, ◌≡◌,
}
pub use melodiasdk_io_store.Method.{Method, continue, ◌>>=◌, ◌>>◌, pure, raise}

abbrev pub two_64 : ℕ
two_64 = 18446744073709551616

-- math.MaxUint64
abbrev pub max_gas : ℕ
max_gas = 18446744073709551615

-- A value of the map: `*atomic.Uint64`, or a bare `Gas`.
pub data Counter : Type 0 where
  atomic : ℕ → Counter
  bare : ℕ → Counter

abbrev pub Counters : Type 0
Counters = ℕ → Option Counter

-- `consumed.Store(namespaceId, counter)`
abbrev pub put : Counters → ℕ → Counter → Counters
put m n c j = if j == n then some c else m j

-- `gas.(*atomic.Uint64).Load()` of a loaded value.
abbrev pub load_counter : Counter → Result ℕ
load_counter (atomic n) = ok n
load_counter (bare n) = panic type_assertion

pub record GasConfig : Type 0 where
  pub has_cost : ℕ
  pub delete_cost : ℕ
  pub read_cost_flat : ℕ
  pub read_cost_per_byte : ℕ
  pub write_cost_flat : ℕ
  pub write_cost_per_byte : ℕ
  pub iter_next_cost_flat : ℕ

unfoldable pub kv_gas_config : GasConfig
kv_gas_config = record {
  has_cost = 1000;
  delete_cost = 1000;
  read_cost_flat = 1000;
  read_cost_per_byte = 3;
  write_cost_flat = 2000;
  write_cost_per_byte = 30;
  iter_next_cost_flat = 30;
}

unfoldable pub transient_gas_config : GasConfig
transient_gas_config = record {
  has_cost = 100;
  delete_cost = 100;
  read_cost_flat = 100;
  read_cost_per_byte = 0;
  write_cost_flat = 200;
  write_cost_per_byte = 3;
  iter_next_cost_flat = 3;
}

-- `GasMeter`, as far as the stores use it, with what a charge that returns promises.
pub record GasMeter : Type 1 where
  pub Meter : Type 0
  pub IsSound : Meter → Type 0
  pub used : Meter → ℕ
  pub consume : ℕ → Method Meter (Unit {0})
  pub consume_lem :
      (g : Meter) (amount : ℕ)
      → IsSound g
      → (consume amount g).0 ≡ ok tt
      → IsSound (consume amount g).1 × (used (consume amount g).1 ≡ used g + amount)
