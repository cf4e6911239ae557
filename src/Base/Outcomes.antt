-- ===== src/Base/Outcomes.antt =====
-- What a call of a Rust function comes to: `Ok`, `Err`, or a panic that unwinds.
use mathlib.Core.Bool.{Bool, true, false}

pub data Outcome {ℓ κ} (E : Type ℓ) (A : Type κ) : Type (ℓ ⊔ κ) where
  panic : Outcome E A
  err : E → Outcome E A
  ok : A → Outcome E A

-- `map_err`
abbrev pub map_err {ℓ κ μ} :
    {E : Type ℓ} {F : Type κ} {A : Type μ} → (E → F) → Outcome E A → Outcome F A
map_err f panic = panic
map_err f (err e) = err (f e)
map_err f (ok a) = ok a

-- The operator `?`, and the rest of the body.
infixl 5 ◌>>=◌ ◌>>◌
abbrev pub ◌>>=◌ {ℓ κ μ} :
    {E : Type ℓ} {A : Type κ} {B : Type μ} → Outcome E A → (A → Outcome E B) → Outcome E B
panic >>= rest = panic
err e >>= rest = err e
ok a >>= rest = rest a

abbrev pub ◌>>◌ {ℓ κ} : {E : Type ℓ} {B : Type κ} → Outcome E (Unit {0}) → Outcome E B → Outcome E B
panic >> rest = panic
err e >> rest = err e
ok done >> rest = rest

-- An index or an addition that Rust checks: it panics unless the test holds.
abbrev pub require {ℓ} : {E : Type ℓ} → Bool → Outcome E (Unit {0})
require false = panic
require true = ok tt

-- `if !test { return Err(e); }`
abbrev pub guard {ℓ} : {E : Type ℓ} → Bool → E → Outcome E (Unit {0})
guard false e = err e
guard true e = ok tt
