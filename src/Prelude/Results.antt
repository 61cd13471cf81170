-- ===== src/Prelude/Results.antt =====
-- Results of fallible code, with the bind that a do block uses.

use mathlib.Core.Path.{◌≡◌, refl}
use native.Mathlib.Omega.{arith}

pub data Result {ℓ κ} (E : Type κ) (A : Type ℓ) : Type (ℓ ⊔ κ) where
  ok : A → Result E A
  err : E → Result E A

infixl 5 ◌>>=◌ ◌>>◌
abbrev pub ◌>>=◌ {ℓ κ μ} :
    {E : Type κ} {A : Type ℓ} {B : Type μ} → Result E A → (A → Result E B) → Result E B
ok a >>= f = f a
err e >>= f = err e

abbrev pub ◌>>◌ {κ μ} : {E : Type κ} {B : Type μ} → Result E (Unit {0}) → Result E B → Result E B
m >> k = m >>= λ _. k

module _ {ℓ κ μ} {E : Type κ} {A : Type ℓ} {B : Type μ} where
  -- A bind that ends well: both of its parts do.
  pub bind-ok :
      (m : Result E A) (f : A → Result E B) (y : B)
      → (m >>= f) ≡ ok y
      → (x : A) × (m ≡ ok x) × (f x ≡ ok y)
  bind-ok (ok x) f y h = (x, refl, h)
  bind-ok (err e) f y h = elim (err_not_ok e y h) [ ]
    where
      err_not_ok : (e : E) (y : B) → ◌≡◌ {A = Result E B} (err e) (ok y) → ⊥
      err_not_ok e y h = ground (arith, h)
