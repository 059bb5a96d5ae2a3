-- ===== src/Method.antt =====
-- Methods that change an object and may panic.
use melodiasdk_io_store.Prelude.{Result, ok, panic, Fault}

-- A method on an object of type `S`: what it wrote before a panic stays written.
abbrev pub Method : Type 0 → Type 0 → Type 0
Method S A = S → Result A × S

abbrev pub continue : {S A B : Type 0} → Result A → S → (A → Method S B) → Result B × S
continue (ok a) s f = f a s
continue (panic e) s f = (panic e, s)

infixl 5 ◌>>=◌ ◌>>◌
abbrev pub ◌>>=◌ : {S A B : Type 0} → Method S A → (A → Method S B) → Method S B
◌>>=◌ m f s = let (r, s') = m s in continue r s' f

abbrev pub ◌>>◌ : {S B : Type 0} → Method S (Unit {0}) → Method S B → Method S B
m >> k = m >>= λ _. k

abbrev pub pure : {S A : Type 0} → A → Method S A
pure a s = (ok a, s)

abbrev pub raise : {S A : Type 0} → Fault → Method S A
raise e s = (panic e, s)
