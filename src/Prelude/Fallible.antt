-- ===== src/Prelude/Fallible.antt =====
-- `Result<A, E>`.
use mathlib.Core.Path.{◌≡◌, refl, ap}
use mathlib.Core.Logic.{◌⊎◌, inl, inr}

pub data Result {ℓ κ} (E : Type κ) (A : Type ℓ) : Type (ℓ ⊔ κ) where
  ok : A → Result E A
  err : E → Result E A

infixl 5 ◌>>=◌
abbrev pub ◌>>=◌ {ℓ κ μ} :
    {E : Type κ} {A : Type ℓ} {B : Type μ} → Result E A → (A → Result E B) → Result E B
ok a >>= f = f a
err e >>= f = err e

-- What a chain returned came from what its first part returned.
pub ok-bind {ℓ κ μ} :
    {E : Type κ} {A : Type ℓ} {B : Type μ} (r : Result E A) (f : A → Result E B) (b : B)
    → (r >>= f) ≡ ok b
    → (a : A) × (r ≡ ok a) × (f a ≡ ok b)
ok-bind (ok a) f b h = (a, refl, h)
ok-bind (err e) f b h = absurd (cc)

pub ok-cancel {ℓ κ} :
    {E : Type κ} {A : Type ℓ} {x : Result E A} {a b : A} → x ≡ ok a → x ≡ ok b → a ≡ b
ok-cancel h g = cc (h, g)

pub err-cancel {ℓ κ} :
    {E : Type κ} {A : Type ℓ} {x : Result E A} {a b : E} → x ≡ err a → x ≡ err b → a ≡ b
err-cancel h g = cc (h, g)

-- A chain that fails did so in its first part or behind it.
pub err-bind {ℓ κ μ} :
    {E : Type κ} {A : Type ℓ} {B : Type μ} (r : Result E A) (f : A → Result E B) (e : E)
    → (r >>= f) ≡ err e
    → (r ≡ err e) ⊎ ((a : A) × (r ≡ ok a) × (f a ≡ err e))
err-bind (ok a) f e h = inr (a, refl, h)
err-bind (err d) f e h = inl (ap err (err-cancel refl h))
