-- ===== src/Rules/Balance.antt =====
-- The values of the smooth weighted round robin of crates/tgin-core/src/rules/compile.rs.
use tgin.Prelude.{
  ℕ, zero, suc, ◌+◌, ◌≤◌, ◌<◌, ◌≡◌, refl, sym, ap, subst, ◌∙◌, List, [], ◌∷◌, ◌==◌, if◌then◌else◌,
  arith, Bool-cases, inl, inr, ◌⊎◌,
}
use tgin.Prelude.Int.{ℤ, pos, negsuc, pos_part, neg_part, ltb_ℤ, ◌+ℤ◌, ◌-ℤ◌}
use tgin.Rules.Schedule.{add_each, subtract_at, total}

unfoldable pub times : ℕ → ℕ → ℕ
times zero m = 0
times (suc n) m = m + times n m

pub times-add : (a b m : ℕ) → times (a + b) m ≡ times a m + times b m
unfolding times
times-add zero b m =
    let step : times (0 + b) m ≡ times b m =
      ap (λ n. times n m) {x = 0 + b} {y = b} (omega arith) in
    omega (arith, step)
times-add (suc a) b m =
    let step : times (suc a + b) m ≡ m + times (a + b) m =
      ap (λ n. times n m) {x = suc a + b} {y = suc (a + b)} (omega arith) in
    omega (arith, step, times-add a b m)

times_zero : (a : ℕ) → times a 0 ≡ 0
unfolding times
times_zero zero = refl
times_zero (suc a) = omega (arith, times_zero a)

times-suc : (a b : ℕ) → times a (suc b) ≡ a + times a b
unfolding times
times-suc zero b = omega arith
times-suc (suc a) b = omega (arith, times-suc a b)

pub times_comm : (a b : ℕ) → times a b ≡ times b a
unfolding times
times_comm zero b = sym (times_zero b)
times_comm (suc a) b = omega (arith, times_comm a b, times-suc b a)

-- What is times a positive number is compared as it is.
pub times-le : (a b m : ℕ) → times a m < times b m + m → a ≤ b
unfolding times
times-le zero b m h = omega arith
times-le (suc a) zero m h = absurd (omega (arith, h))
times-le (suc a) (suc b) m h = omega (arith, times-le a b m (omega (arith, h)))

unfoldable pub pos_sum : List ℤ → ℕ
pos_sum [] = 0
pos_sum (c ∷ cs) = pos_part c + pos_sum cs

unfoldable pub neg_sum : List ℤ → ℕ
neg_sum [] = 0
neg_sum (c ∷ cs) = neg_part c + neg_sum cs

pub add-parts :
    (c : ℤ) (w : ℕ)
    → (pos_part (c +ℤ pos w) + neg_part c ≡ pos_part c + w + neg_part (c +ℤ pos w))
      × (neg_part (c +ℤ pos w) ≤ neg_part c)
add-parts c w = (ground arith, ground arith)

subtract-parts :
    (c : ℤ) (w : ℕ)
    → 0 < pos_part c
    → (pos_part (c -ℤ pos w) + w + neg_part c ≡ pos_part c + neg_part (c -ℤ pos w))
      × (neg_part (c -ℤ pos w) < w + 1)
subtract-parts (pos n) w h = (ground arith, ground arith)
subtract-parts (negsuc n) w h = absurd (omega (arith, h))

-- The value at a position is above zero.
abbrev pub PositiveAt : ℕ → List ℤ → Type 0
PositiveAt k [] = ⊥
PositiveAt zero (c ∷ cs) = 0 < pos_part c
PositiveAt (suc k) (c ∷ cs) = PositiveAt k cs

one_part : (c : ℤ) → (pos_part c ≡ 0) ⊎ (neg_part c ≡ 0)
one_part (pos n) = inr refl
one_part (negsuc n) = inl refl

-- The larger of two values is above zero if one of them is.
still :
    (best value : ℤ) (s : ℕ)
    → 0 < pos_part best + (pos_part value + s)
    → 0 < pos_part (if ltb_ℤ best value then value else best) + s
still best value s h = elim (Bool-cases (ltb_ℤ best value)) [
  | inl higher ↦
      let is_value : (if ltb_ℤ best value then value else best) ≡ value = ground (arith, higher) in
      subst (λ v. 0 < pos_part v + s) (sym is_value)
        (elim (one_part best) [
          | inl e ↦ omega (arith, h, e)
          | inr e ↦ ground (arith, h, e, higher)
        ])
  | inr lower ↦
      let is_best : (if ltb_ℤ best value then value else best) ≡ best = ground (arith, lower) in
      subst (λ v. 0 < pos_part v + s) (sym is_best)
        (elim (one_part value) [
          | inl e ↦ omega (arith, h, e)
          | inr e ↦ ground (arith, h, e, lower)
        ])
]

-- The pick is above zero if anything is.
pub add_each-PositiveAt :
    (i pick : ℕ) (best : ℤ) (weights : List ℕ) (current : List ℤ)
    → 0 < pos_part best + pos_sum (add_each i pick best weights current).0
    → (((add_each i pick best weights current).1 ≡ pick) × (0 < pos_part best))
      ⊎ ((k : ℕ) × ((add_each i pick best weights current).1 ≡ i + k)
          × PositiveAt k (add_each i pick best weights current).0)
unfolding add_each pos_sum
add_each-PositiveAt i pick best [] current h = inl (refl, omega (arith, h))
add_each-PositiveAt i pick best (w ∷ weights) [] h = inl (refl, omega (arith, h))
add_each-PositiveAt i pick best (w ∷ weights) (c ∷ current) h =
    let value = c +ℤ pos w in
    let better = ltb_ℤ best value in
    let pick' = if better then i else pick in
    let best' = if better then value else best in
    elim (add_each-PositiveAt (suc i) pick' best' weights current
      (still best value (pos_sum (add_each (suc i) pick' best' weights current).0) h)) [
        | inr (k, e, at) ↦ inr (suc k, omega (arith, e), at)
        | inl (e, above) ↦ elim (Bool-cases better) [
          | inl higher ↦
              let picked : pick' ≡ i + 0 = ground (arith, higher) in
              let is_value : best' ≡ value = ground (arith, higher) in
              inr (0, e ∙ picked, subst (λ v. 0 < pos_part v) is_value above)
          | inr lower ↦
              let picked : pick' ≡ pick = ground (arith, lower) in
              let is_best : best' ≡ best = ground (arith, lower) in
              inl (e ∙ picked, subst (λ v. 0 < pos_part v) is_best above)
        ]
      ]

-- After `t` rounds the value of the child at each position is `t` times its weight, less the period
-- for each time it was picked. `picks` counts those.
abbrev pub Balanced : ℕ → ℕ → (ℕ → ℕ) → ℕ → List ℕ → List ℤ → Type 0
Balanced period t picks i [] [] = Unit {0}
Balanced period t picks i [] (c ∷ cs) = ⊥
Balanced period t picks i (w ∷ ws) [] = ⊥
Balanced period t picks i (w ∷ ws) (c ∷ cs) =
    (pos_part c + times (picks i) period ≡ times t w + neg_part c)
    × Balanced period t picks (suc i) ws cs

-- No value is a period below zero.
abbrev pub Low : ℕ → List ℤ → Type 0
Low period [] = Unit {0}
Low period (c ∷ cs) = (neg_part c < period) × Low period cs

pub Balanced-same :
    (period t : ℕ) (f g : ℕ → ℕ) (i : ℕ) (ws : List ℕ) (cs : List ℤ)
    → ((j : ℕ) → i ≤ j → g j ≡ f j)
    → Balanced period t f i ws cs
    → Balanced period t g i ws cs
Balanced-same period t f g i [] [] same b = tt
Balanced-same period t f g i [] (c ∷ cs) same b = b
Balanced-same period t f g i (w ∷ ws) [] same b = b
Balanced-same period t f g i (w ∷ ws) (c ∷ cs) same (e, b) = (
  ap (λ n. pos_part c + times n period) (same i (omega arith)) ∙ e,
  Balanced-same period t f g (suc i) ws cs (λ j le. same j (omega (arith, le))) b,
)

pub add_each-Balanced :
    (period t : ℕ) (picks : ℕ → ℕ) (i at pick : ℕ) (best : ℤ) (ws : List ℕ) (cs : List ℤ)
    → Balanced period t picks i ws cs
    → Balanced period (suc t) picks i ws (add_each at pick best ws cs).0
unfolding add_each times
add_each-Balanced period t picks i at pick best [] [] b = tt
add_each-Balanced period t picks i at pick best [] (c ∷ cs) b = absurd b
add_each-Balanced period t picks i at pick best (w ∷ ws) [] b = b
add_each-Balanced period t picks i at pick best (w ∷ ws) (c ∷ cs) (e, b) = (
  omega (arith, e, (add-parts c w).0),
  add_each-Balanced period t picks (suc i) (suc at) _ _ ws cs b,
)

pub add_each-Low :
    (period at pick : ℕ) (best : ℤ) (ws : List ℕ) (cs : List ℤ)
    → Low period cs
    → Low period (add_each at pick best ws cs).0
unfolding add_each
add_each-Low period at pick best [] cs l = tt
add_each-Low period at pick best (w ∷ ws) [] l = tt
add_each-Low period at pick best (w ∷ ws) (c ∷ cs) (lt, l) =
    (omega (arith, lt, (add-parts c w).1), add_each-Low period (suc at) _ _ ws cs l)

pub add_each-sum :
    (period t : ℕ) (picks : ℕ → ℕ) (i at pick : ℕ) (best : ℤ) (ws : List ℕ) (cs : List ℤ)
    → Balanced period t picks i ws cs
    → pos_sum (add_each at pick best ws cs).0 + neg_sum cs
      ≡ pos_sum cs + total ws + neg_sum (add_each at pick best ws cs).0
unfolding add_each pos_sum neg_sum total
add_each-sum period t picks i at pick best [] [] b = refl
add_each-sum period t picks i at pick best [] (c ∷ cs) b = absurd b
add_each-sum period t picks i at pick best (w ∷ ws) [] b = absurd b
add_each-sum period t picks i at pick best (w ∷ ws) (c ∷ cs) (e, b) =
    let better = ltb_ℤ best (c +ℤ pos w) in
    omega (
      arith,
      (add-parts c w).0,
      add_each-sum period t picks (suc i) (suc at) (if better then at else pick)
          (if better then c +ℤ pos w else best) ws cs b,
    )

unfoldable pub bump : ℕ → (ℕ → ℕ) → ℕ → ℕ
bump k picks j = if j == k then suc (picks j) else picks j

pub subtract_at-Balanced :
    (period t : ℕ) (picks : ℕ → ℕ) (i k : ℕ) (ws : List ℕ) (cs : List ℤ)
    → Balanced period t picks i ws cs
    → PositiveAt k cs
    → Balanced period t (bump (i + k) picks) i ws (subtract_at k period cs)
unfolding subtract_at times bump
subtract_at-Balanced period t picks i k ws [] b at = absurd at
subtract_at-Balanced period t picks i k [] (c ∷ cs) b at = absurd b
subtract_at-Balanced period t picks i zero (w ∷ ws) (c ∷ cs) (e, b) at =
    let here : bump (i + 0) picks i ≡ suc (picks i) = ground arith in
    (
      ap (λ n. pos_part (c -ℤ pos period) + times n period) here
          ∙ omega (arith, e, (subtract-parts c period at).0),
      Balanced-same period t picks (bump (i + 0) picks) (suc i) ws cs (λ j le. ground (arith, le))
          b,
    )
subtract_at-Balanced period t picks i (suc k) (w ∷ ws) (c ∷ cs) (e, b) at =
    let here : bump (i + suc k) picks i ≡ picks i = ground arith in
    (
      ap (λ n. pos_part c + times n period) here ∙ e,
      Balanced-same period t (bump (suc i + k) picks) (bump (i + suc k) picks) (suc i) ws
          (subtract_at k period cs) (λ j le. ground arith)
          (subtract_at-Balanced period t picks (suc i) k ws cs b at),
    )

pub subtract_at-Low :
    (period k : ℕ) (cs : List ℤ)
    → Low period cs
    → PositiveAt k cs
    → 0 < period
    → Low period (subtract_at k period cs)
unfolding subtract_at
subtract_at-Low period k [] l at h = absurd at
subtract_at-Low period zero (c ∷ cs) (lt, l) at h = (below c period at h, l)
  where
    below : (c : ℤ) (p : ℕ) → 0 < pos_part c → 0 < p → neg_part (c -ℤ pos p) < p
    below (pos n) p at h = ground (arith, at, h)
    below (negsuc n) p at h = absurd (omega (arith, at))
subtract_at-Low period (suc k) (c ∷ cs) (lt, l) at h = (lt, subtract_at-Low period k cs l at h)

pub subtract_at-sum :
    (period k : ℕ) (cs : List ℤ)
    → PositiveAt k cs
    → pos_sum (subtract_at k period cs) + period + neg_sum cs
      ≡ pos_sum cs + neg_sum (subtract_at k period cs)
unfolding subtract_at pos_sum neg_sum
subtract_at-sum period k [] at = absurd at
subtract_at-sum period zero (c ∷ cs) at = omega (arith, (subtract-parts c period at).0)
subtract_at-sum period (suc k) (c ∷ cs) at = omega (arith, subtract_at-sum period k cs at)
