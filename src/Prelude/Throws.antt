-- ===== src/Prelude/Throws.antt =====
-- The result of a call that returns a value or throws, for any type of errors.
use mathlib.Core.Path.{◌≡◌, refl}
use mathlib.Core.Bool.{Bool, true, false}

pub data Result {ℓ κ} (E : Type κ) (A : Type ℓ) : Type (ℓ ⊔ κ) where
  ok : A → Result E A
  err : E → Result E A

infixl 5 ◌>>=◌ ◌>>◌
abbrev pub ◌>>=◌ {ℓ κ μ} :
    {E : Type κ} {A : Type ℓ} {B : Type μ} → Result E A → (A → Result E B) → Result E B
ok a >>= f = f a
err e >>= f = err e

abbrev pub ◌>>◌ {ℓ κ} : {E : Type κ} {B : Type ℓ} → Result E (Unit {0}) → Result E B → Result E B
m >> k = m >>= λ _. k

-- `if (bad) throw e`.
abbrev pub throw_if {κ} : {E : Type κ} → Bool → E → Result E (Unit {0})
throw_if true e = err e
throw_if false e = ok tt

-- What a chain that succeeds has passed through.
module _ {ℓ κ μ} {E : Type κ} {A : Type ℓ} {B : Type μ} (k : A → Result E B) {b : B} where
  pub bind-eq-ok : (m : Result E A) → (m >>= k) ≡ ok b → (a : A) × (k a ≡ ok b) × (m ≡ ok a)
  bind-eq-ok (err e) h = cc
  bind-eq-ok (ok a) h = (a, h, refl)
