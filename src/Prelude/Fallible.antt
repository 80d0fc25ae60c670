-- ===== src/Prelude/Fallible.antt =====
-- What a Python function returns or raises, for a type of exceptions of its own.
use mathlib.Core.Path.{◌≡◌, refl}

pub data Fallible {ℓ κ} (E : Type ℓ) (A : Type κ) : Type (ℓ ⊔ κ) where
  ok : A → Fallible E A
  err : E → Fallible E A

infixl 5 ◌>>=◌
abbrev pub ◌>>=◌ {ℓ κ μ} :
    {E : Type ℓ} {A : Type κ} {B : Type μ} → Fallible E A → (A → Fallible E B) → Fallible E B
ok a >>= f = f a
err e >>= f = err e

-- Inversion of a bind that succeeds.
pub bind-eq-ok {ℓ κ μ} :
    {E : Type ℓ} {A : Type κ} {B : Type μ} (m : Fallible E A) (f : A → Fallible E B) {b : B}
    → (m >>= f) ≡ ok b
    → (a : A) × (m ≡ ok a) × (f a ≡ ok b)
bind-eq-ok (ok a) f h = (a, refl, h)
bind-eq-ok (err e) f h = cc

pub ok-injective {ℓ κ} :
    {E : Type ℓ} {A : Type κ} {a b : A} → ◌≡◌ {A = Fallible E A} (ok a) (ok b) → a ≡ b
ok-injective h = cc
