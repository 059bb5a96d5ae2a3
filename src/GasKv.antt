-- ===== src/GasKv.antt =====
-- gaskv/store.go: gas tracking around a parent store. A panic of the meter stops an operation; the gas
-- that was charged before it stays charged, and what was not written yet is not written.
pub mod Costs
use melodiasdk_io_store.Prelude.{
  ℕ, ◌*◌, ◌%◌, Bool, List, [], ◌∷◌, Option, none, some, Result, ok, panic, length, is_some,
}
use melodiasdk_io_store.Bytes.{Bytes, Slice}
use melodiasdk_io_store.Iterator.{Iter, iter_next}
use melodiasdk_io_store.Types.Validity.{assert_valid_key, assert_valid_value}
use melodiasdk_io_store.Types.KvStore.{KvStore}
use melodiasdk_io_store.Types.Gas.{GasMeter, GasConfig, Method, ◌>>=◌, ◌>>◌, pure, two_64}

-- `len` of a slice that may be nil.
abbrev pub len : Slice → ℕ
len none = 0
len (some v) = length v

-- A product of `uint64`.
abbrev pub times : ℕ → ℕ → ℕ
times a b = a * b % two_64

module _ (m : GasMeter) (p : KvStore) where
  pub record Store : Type 0 where
    pub gas_meter : m.Meter
    pub gas_config : GasConfig
    pub parent : p.State

  abbrev pub with_meter : Store → Result (Unit {0}) × m.Meter → Result (Unit {0}) × Store
  with_meter s (r, g) = (r, record s { gas_meter = g })

  unfoldable pub consume : (GasConfig → ℕ) → Method Store (Unit {0})
  consume cost s = with_meter s (m.consume (cost s.gas_config) s.gas_meter)

  abbrev pub lift : {A : Type 0} → Result A → Method Store A
  lift r s = (r, s)

  -- A call of the parent that writes; `left` is what the parent is after a panic.
  abbrev pub lift_parent : Store → p.State → Result p.State → Result (Unit {0}) × Store
  lift_parent s left (ok q) = (ok tt, record s { parent = q })
  lift_parent s left (panic e) = (panic e, record s { parent = left })

  unfoldable pub get : Bytes → Method Store Slice
  get key = do
    consume (λ c. c.read_cost_flat)
    value ← (λ s. (p.get s.parent key, s))
    consume (λ c. times c.read_cost_per_byte (length key))
    consume (λ c. times c.read_cost_per_byte (len value))
    pure value

  unfoldable pub set : Bytes → Slice → Method Store (Unit {0})
  set key value = do
    lift (assert_valid_key key)
    lift (assert_valid_value value)
    consume (λ c. c.write_cost_flat)
    consume (λ c. times c.write_cost_per_byte (length key))
    consume (λ c. times c.write_cost_per_byte (len value))
    (λ s. lift_parent s (p.failed_set s.parent key value) (p.set s.parent key value))

  -- The parent's `Has` is its `Get` compared with nil.
  unfoldable pub has : Bytes → Method Store Bool
  has key = do
    consume (λ c. c.has_cost)
    value ← (λ s. (p.get s.parent key, s))
    pure (is_some value)

  unfoldable pub delete : Bytes → Method Store (Unit {0})
  delete key = do
    consume (λ c. c.delete_cost)
    (λ s. lift_parent s (p.failed_delete s.parent key) (p.delete s.parent key))

  -- `consumeSeekGas`
  unfoldable pub consume_seek_gas : Iter → Method Store (Unit {0})
  consume_seek_gas [] = consume (λ c. c.iter_next_cost_flat)
  consume_seek_gas ((key, value) ∷ l) = do
    consume (λ c. times c.read_cost_per_byte (length key))
    consume (λ c. times c.read_cost_per_byte (len value))
    consume (λ c. c.iter_next_cost_flat)

  abbrev pub lift_iterator : Store → p.State → Result (Iter × p.State) → Result Iter × Store
  lift_iterator s left (ok (l, q)) = (ok l, record s { parent = q })
  lift_iterator s left (panic e) = (panic e, record s { parent = left })

  unfoldable pub iterator : Slice → Slice → Bool → Method Store Iter
  unfolding consume_seek_gas
  iterator start end ascending = do
    parent ← (λ s.
        lift_iterator s (p.failed_iterator s.parent start end ascending)
          (p.iterator s.parent start end ascending))
    consume_seek_gas parent
    pure parent

  unfoldable pub next : Iter → Method Store Iter
  unfolding consume_seek_gas
  next it = do consume_seek_gas it; lift (iter_next it)
