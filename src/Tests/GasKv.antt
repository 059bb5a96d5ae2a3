-- ===== src/Tests/GasKv.antt =====
-- The gas-tracking store of gaskv/store.go over a limited meter and a list.
use melodiasdk_io_store.Prelude.{ℕ, ◌≡◌, refl, [], ◌∷◌, some, panic, arith, out_of_gas}
use melodiasdk_io_store.Bytes.{Bytes}
use melodiasdk_io_store.Types.Validity.{assert_valid_key, assert_valid_value}
use melodiasdk_io_store.Types.Gas.{atomic, kv_gas_config}
use melodiasdk_io_store.Types.Gas.Basic.{BasicGasMeter, consume_gas}
use melodiasdk_io_store.Types.Gas.Basic.Laws.{basic_gas_meter, IsSound}
use melodiasdk_io_store.GasKv.{Store, consume, get, set, delete}
use melodiasdk_io_store.GasKv.Costs
use melodiasdk_io_store.Tests.Model.{list_store, Live, insert_live}

abbrev key : Bytes
key = 97 ∷ []

abbrev value : Bytes
value = 1 ∷ 2 ∷ []

abbrev entries : Live
entries = insert_live key value ([], tt, tt)

-- A meter with a counter, and a limit.
abbrev meter_to : ℕ → BasicGasMeter
meter_to limit = record { limit = limit; consumed = λ n. some (atomic 5); namespace_id = 0 }

abbrev store : Store basic_gas_meter list_store
store = record { gas_meter = meter_to 10000; gas_config = kv_gas_config; parent = entries }

store-IsSound : IsSound store.gas_meter
store-IsSound = record { limit_fits = omega arith; counter = omega arith }

abbrev after_set : Store basic_gas_meter list_store
after_set = (set basic_gas_meter list_store key (some value) store).1

abbrev after_delete : Store basic_gas_meter list_store
after_delete = (delete basic_gas_meter list_store key store).1

abbrev after_get : Store basic_gas_meter list_store
after_get = (get basic_gas_meter list_store key store).1

-- The limit is met after the flat cost of a write.
abbrev poor : Store basic_gas_meter list_store
poor = record { gas_meter = meter_to 2006; gas_config = kv_gas_config; parent = entries }

panic_writes_nothing_example :
    Costs.Ends basic_gas_meter list_store
      (list_store.set entries key (some value))
      entries
      poor
      (set basic_gas_meter list_store key (some value) poor)
    × Costs.Ends basic_gas_meter list_store
        (list_store.delete entries key)
        entries
        poor
        (delete basic_gas_meter list_store key poor)
panic_writes_nothing_example =
    Costs.panic_writes_nothing basic_gas_meter list_store key (some value) poor

runs_out : (set basic_gas_meter list_store key (some value) poor).0 ≡ panic out_of_gas
unfolding set consume consume_gas kv_gas_config assert_valid_key assert_valid_value
runs_out = refl
