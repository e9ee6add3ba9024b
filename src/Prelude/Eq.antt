-- ===== src/Prelude/Eq.antt =====
-- Equality tests as an interface: `PartialEq` of the keys that maps are keyed by.
use Prim.Native.Nat.{ℕ}
use Prim.Native.String.{String}
use mathlib.Core.Path.{◌≡◌, ap}
use mathlib.Core.List.{List, [], ◌∷◌}
use native.Mathlib.Omega.{arith}
use tgin.Prelude.Int.{ℤ, pos, negsuc}
use mathlib.Core.Logic.{◌↔◌}
use mathlib.Core.Bool.{Bool, true, false, ◌||◌}
use text.Mathlib.Text.{◌==◌ as str_eq}
use text.Mathlib.TextEquality.{eq_iff}
use tgin.Prelude.Tests.{◌==◌, ==_iff}

pub record EqTest {ℓ} (A : Type ℓ) : Type ℓ where
  pub eq : A → A → Bool
  pub eq_iff : (a b : A) → (eq a b ≡ true) ↔ (a ≡ b)

instance abbrev pub nat_eq : EqTest ℕ
nat_eq = record { eq = ◌==◌; eq_iff = ==_iff }

instance abbrev pub string_eq : EqTest String
string_eq = record { eq = str_eq; eq_iff = eq_iff }

-- `==` of `i64` values.
abbrev pub eq_ℤ : ℤ → ℤ → Bool
eq_ℤ (pos a) (pos b) = a == b
eq_ℤ (pos a) (negsuc b) = false
eq_ℤ (negsuc a) (pos b) = false
eq_ℤ (negsuc a) (negsuc b) = a == b

pub eq_ℤ_iff : (a b : ℤ) → (eq_ℤ a b ≡ true) ↔ (a ≡ b)
eq_ℤ_iff (pos a) (pos b) = (λ h. ap pos ((==_iff a b).0 h), λ h. ground (arith, h))
eq_ℤ_iff (pos a) (negsuc b) = (λ h. absurd (cc), λ h. absurd (cc))
eq_ℤ_iff (negsuc a) (pos b) = (λ h. absurd (cc), λ h. absurd (cc))
eq_ℤ_iff (negsuc a) (negsuc b) = (λ h. ap negsuc ((==_iff a b).0 h), λ h. ground (arith, h))

instance abbrev pub int_eq : EqTest ℤ
int_eq = record { eq = eq_ℤ; eq_iff = eq_ℤ_iff }

-- `HashSet::contains` and `slice::contains`.
unfoldable pub member {ℓ} : {A : Type ℓ} ⦃e : EqTest A⦄ → A → List A → Bool
member x [] = false
member ⦃e⦄ x (y ∷ ys) = e.eq x y || member x ys
