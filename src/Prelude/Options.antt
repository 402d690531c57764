-- ===== src/Prelude/Options.antt =====
-- The chains that `?` writes on an `Option`, and what a successful chain says of its steps.
use mathlib.Core.Option.{Option, none, some}
use mathlib.Core.Bool.{Bool, true, false}

infixl 5 ◌>>=◌ ◌>>◌
abbrev pub ◌>>=◌ {ℓ κ} : {A : Type ℓ} {B : Type κ} → Option A → (A → Option B) → Option B
none >>= f = none
some a >>= f = f a

abbrev pub ◌>>◌ {κ} : {B : Type κ} → Option (Unit {0}) → Option B → Option B
m >> k = m >>= λ _. k

-- An early `return None`.
abbrev pub guard : Bool → Option (Unit {0})
guard true = some tt
guard false = none
