-- ===== src/Rules/Gcd.antt =====
-- The `gcd` of crates/tgin-core/src/rules/compile.rs, and the fold of it over weights.
use tgin.Prelude.{
  ℕ, zero, suc, ◌<◌, ◌%◌, ◌↔◌, sym, subst, List, [], ◌∷◌, ◌==◌, ==_iff, arith, Bool-cases, inl, inr,
}
use Prim.Native.Nat.{◌∣◌}
use native.Mathlib.Nat.{dvd-zero, dvd-mod_iff}
use tgin.Rules.Schedule.{gcd_each, gcd, gcd_all}

abbrev pub AllDivided : ℕ → List ℕ → Type 0
AllDivided k [] = Unit {0}
AllDivided k (w ∷ weights) = (k ∣ w) × AllDivided k weights

gcd_each-dvd : (k fuel a b : ℕ) → b < fuel → (k ∣ gcd_each fuel a b) ↔ ((k ∣ a) × (k ∣ b))
unfolding gcd_each
gcd_each-dvd k zero a b h = absurd (omega (arith, h))
gcd_each-dvd k (suc fuel) a b h = elim (Bool-cases (b == 0)) [
  | inl ends ↦
      let none_left = (==_iff b 0).0 ends in
      rw (ends, gcd_each) (λ d. (d, subst (λ z. k ∣ z) (sym none_left) (dvd-zero k)), λ x. x.0)
  | inr goes_on ↦
      let rest = gcd_each-dvd k fuel b (a % b) (ground (arith, h, goes_on)) in
      rw (goes_on, gcd_each)
        (
          λ d. let (x, y) = rest.0 d in ((dvd-mod_iff k x).0 y, x),
          λ x. rest.1 (x.1, (dvd-mod_iff k x.1).1 x.0),
        )
]

gcd_all-dvd :
    (k g : ℕ) (weights : List ℕ) → (k ∣ gcd_all g weights) ↔ ((k ∣ g) × AllDivided k weights)
unfolding gcd_all gcd
gcd_all-dvd k g [] = (λ d. (d, tt), λ x. x.0)
gcd_all-dvd k g (w ∷ weights) =
    let rest = gcd_all-dvd k (gcd g w) weights in
    let step = gcd_each-dvd k (suc w) g w (omega arith) in
    (
      λ d. let (x, y) = rest.0 d in let (u, v) = step.0 x in (u, (v, y)),
      λ x. let (u, (v, y)) = x in rest.1 (step.1 (u, v), y),
    )

-- What divides the number that the loop of gcd folds the weights to is exactly what divides
-- every weight, so that number is their greatest common divisor; the loop has fuel enough.
pub gcd_all-AllDivided : (k : ℕ) (weights : List ℕ) → (k ∣ gcd_all 0 weights) ↔ AllDivided k weights
gcd_all-AllDivided k weights =
    let both = gcd_all-dvd k 0 weights in (λ d. (both.0 d).1, λ x. both.1 (dvd-zero k, x))
