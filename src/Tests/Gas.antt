-- ===== src/Tests/Gas.antt =====
-- The gas meters of types/gas.go on concrete sums.
use melodiasdk_io_store.Prelude.{
  ℕ, ◌+◌, ◌≤◌, ◌≡◌, ◌⊎◌, ◌<◌, ◌≢◌, [], ◌∷◌, some, ok, panic, arith, gas_overflow, type_assertion,
}
use melodiasdk_io_store.Types.Gas.{max_gas, atomic}
use melodiasdk_io_store.Types.Gas.Basic.{
  BasicGasMeter, consume_gas, refund_gas, gas_consumed_to_limit,
}
use melodiasdk_io_store.Types.Gas.Basic.Laws
use melodiasdk_io_store.Types.Gas.Basic.Laws.{IsSound, used, charged, consume_all, sum}

-- A meter with a limit of 100 of which 60 are used.
abbrev meter : BasicGasMeter
meter = record { limit = 100; consumed = λ n. some (atomic 60); namespace_id = 0 }

meter-IsSound : IsSound meter
meter-IsSound = record { limit_fits = omega arith; counter = omega arith }

consume_all_lem_example :
    ((used meter + sum (30 ∷ 20 ∷ []) ≤ 100)
      × ((consume_all (30 ∷ 20 ∷ []) meter).0 ≡ ok tt)
      × (used (consume_all (30 ∷ 20 ∷ []) meter).1 ≡ used meter + sum (30 ∷ 20 ∷ [])))
    ⊎ ((100 < used meter + sum (30 ∷ 20 ∷ [])) × ((consume_all (30 ∷ 20 ∷ []) meter).0 ≢ ok tt))
consume_all_lem_example = Laws.consume_all_lem (30 ∷ 20 ∷ []) meter meter-IsSound (omega arith)

overflow_poisons_example :
    (m : BasicGasMeter) × (consume_gas max_gas meter ≡ (panic gas_overflow, m))
    × ((a : ℕ) → consume_gas a m ≡ (panic type_assertion, m))
    × (gas_consumed_to_limit m ≡ (panic type_assertion, m))
    × ((a : ℕ) → refund_gas a m ≡ (panic type_assertion, m))
overflow_poisons_example = Laws.overflow_poisons meter max_gas meter-IsSound (omega arith)
