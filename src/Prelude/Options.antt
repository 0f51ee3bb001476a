-- ===== src/Prelude/Options.antt =====
-- Code that ends at its first failure, as a chain of options.
use mathlib.Core.Bool.{Bool, true, false}
use mathlib.Core.Option.{Option, none, some}

infixl 5 ◌>>=◌ ◌>>◌
abbrev pub ◌>>=◌ {ℓ κ} : {A : Type ℓ} {B : Type κ} → Option A → (A → Option B) → Option B
none >>= next = none
some a >>= next = next a

abbrev pub ◌>>◌ {ℓ κ} : {A : Type ℓ} {B : Type κ} → Option A → Option B → Option B
m >> rest = m >>= λ _. rest

abbrev pub require : Bool → Option (Unit {0})
require true = some tt
require false = none
