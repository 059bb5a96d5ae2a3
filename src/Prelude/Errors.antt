-- ===== src/Prelude/Errors.antt =====
-- Go panics and returned errors as values; `do` chains calls that may panic.
use mathlib.Core.Path.{◌≡◌, refl}
use mathlib.Core.Logic.{◌⊎◌, inl, inr}
use mathlib.Core.Bool.{Bool, true, false}

-- The panics and errors that the modelled code raises.
pub data Fault : Type 0 where
  key_empty key_too_large value_nil value_too_large nil_key iterator_invalid nil_tree : Fault
  gas_overflow out_of_gas negative_gas type_assertion : Fault
  index_out_of_range should_not_happen common_prefix negative_height : Fault
  map_get_nil blocked nil_pointer estimate_read readset_conflict not_implemented : Fault
  -- The fuel of a loop is used up; never the case where enough is given.
  no_fuel : Fault

pub data Result {ℓ} (A : Type ℓ) : Type ℓ where
  ok : A → Result A
  panic : Fault → Result A

infixl 5 ◌>>=◌ ◌>>◌
abbrev pub ◌>>=◌ {ℓ κ} : {A : Type ℓ} {B : Type κ} → Result A → (A → Result B) → Result B
ok a >>= f = f a
panic e >>= f = panic e

abbrev pub ◌>>◌ {ℓ} : {B : Type ℓ} → Result (Unit {0}) → Result B → Result B
m >> k = m >>= λ _. k

abbrev pub guard : Bool → Fault → Result (Unit {0})
guard true e = panic e
guard false e = ok tt

pub Result-cases {ℓ} :
    {A : Type ℓ} (r : Result A) → ((a : A) × (r ≡ ok a)) ⊎ ((e : Fault) × (r ≡ panic e))
Result-cases (ok a) = inl (a, refl)
Result-cases (panic e) = inr (e, refl)
