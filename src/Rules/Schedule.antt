-- ===== src/Rules/Schedule.antt =====
-- The smooth weighted round robin of crates/tgin-core/src/rules/compile.rs. The `i64` values are
-- integers: those of the rounds stay far from the limits, since the period is at most 2^16 then. The
-- sum of the weights is taken before the period is checked; it fits an `i64` for fewer than 2^31
-- weights, which are `u32`, and more of them are left out.
use tgin.Prelude.{
  ℕ, zero, suc, ◌+◌, ◌/◌, ◌%◌, ◌^◌, ◌≤◌, ◌<◌, ◌≡◌, refl, false, List, [], ◌∷◌, map, length, ltb,
  ◌==◌, min, if◌then◌else◌, arith, Result, ok, err, Bool-cases, inl, inr, subst,
}
use tgin.Prelude.Int.{ℤ, pos, ltb_ℤ, ◌+ℤ◌, ◌-ℤ◌}
use tgin.Rules.Spec.{InvalidRule, zero_total_weight, weight_period_too_large}
use tgin.Prelude.Words.{u32_max}

abbrev pub max_weight_period : ℕ
max_weight_period = 2 ^ 16

-- `index`: a `usize` as a `u32`.
abbrev pub index : ℕ → ℕ
index len = min len u32_max

-- The loop of `gcd`, on fuel.
unfoldable pub gcd_each : ℕ → ℕ → ℕ → ℕ
gcd_each zero a b = a
gcd_each (suc fuel) a b = let rest = gcd_each fuel b (a % b) in if b == 0 then a else rest

-- Each round makes `b` smaller.
unfoldable pub gcd : ℕ → ℕ → ℕ
unfolding gcd_each
gcd a b = gcd_each (suc b) a b

unfoldable pub gcd_all : ℕ → List ℕ → ℕ
unfolding gcd
gcd_all g [] = g
gcd_all g (w ∷ weights) = gcd_all (gcd g w) weights

unfoldable pub total : List ℕ → ℕ
total [] = 0
total (w ∷ weights) = w + total weights

abbrev pub zeros : List ℕ → List ℤ
zeros [] = []
zeros (w ∷ weights) = pos 0 ∷ zeros weights

-- The loop over the weights from position `i` on, with the pick so far and its value.
unfoldable pub add_each : ℕ → ℕ → ℤ → List ℕ → List ℤ → List ℤ × ℕ
add_each i pick best [] current = ([], pick)
add_each i pick best (w ∷ weights) [] = ([], pick)
add_each i pick best (w ∷ weights) (c ∷ current) =
    let value = c +ℤ pos w in
    let better = ltb_ℤ best value in
    let (rest, picked) =
      add_each (suc i) (if better then i else pick) (if better then value else best) weights
        current in
    (value ∷ rest, picked)

unfoldable pub subtract_at : ℕ → ℕ → List ℤ → List ℤ
subtract_at k amount [] = []
subtract_at zero amount (c ∷ current) = (c -ℤ pos amount) ∷ current
subtract_at (suc k) amount (c ∷ current) = c ∷ subtract_at k amount current

-- One round: the first position starts as the pick.
unfoldable pub round : List ℕ → ℕ → List ℤ → List ℤ × ℕ
unfolding add_each subtract_at
round (w ∷ weights) period (c ∷ current) =
    let value = c +ℤ pos w in
    let (rest, picked) = add_each 1 0 value weights current in
    (subtract_at picked period (value ∷ rest), picked)
round weights period current = (current, 0)

unfoldable pub rounds : ℕ → List ℕ → ℕ → List ℤ → List ℕ
unfolding round
rounds zero weights period current = []
rounds (suc n) weights period current =
    let (next, picked) = round weights period current in index picked ∷ rounds n weights period next

unfoldable pub smooth_wrr_schedule : List ℕ → Result InvalidRule (List ℕ)
unfolding gcd_all total rounds
smooth_wrr_schedule weights =
    let g = gcd_all 0 weights in
    if g == 0
    then err zero_total_weight
    else let reduced = map (λ w. w / g) weights in
      let period = total reduced in
      if ltb max_weight_period period
      then err (weight_period_too_large period)
      else ok (rounds period reduced period (zeros reduced))

abbrev pub AllBelow : ℕ → List ℕ → Type 0
AllBelow n [] = Unit {0}
AllBelow n (x ∷ xs) = (x < n) × AllBelow n xs

add_each-lt :
    (i pick : ℕ) (best : ℤ) (weights : List ℕ) (current : List ℤ)
    → pick < i
    → (add_each i pick best weights current).1 < i + length weights
unfolding add_each
add_each-lt i pick best [] current h = omega (arith, h)
add_each-lt i pick best (w ∷ weights) [] h = omega (arith, h)
add_each-lt i pick best (w ∷ weights) (c ∷ current) h =
    let value = c +ℤ pos w in
    let better = ltb_ℤ best value in
    let later : (if better then i else pick) < suc i = ground (arith, h) in
    omega (
      arith,
      add_each-lt (suc i) (if better then i else pick) (if better then value else best) weights
          current later,
    )

pub round-lt :
    (weights : List ℕ) (period : ℕ) (current : List ℤ)
    → 0 < length weights
    → (round weights period current).1 < length weights
unfolding round
round-lt [] period current h = h
round-lt (w ∷ weights) period [] h = h
round-lt (w ∷ weights) period (c ∷ current) h =
    omega (arith, add_each-lt 1 0 (c +ℤ pos w) weights current (omega arith))

rounds-AllBelow :
    (n : ℕ) (weights : List ℕ) (period : ℕ) (current : List ℤ)
    → 0 < length weights
    → AllBelow (length weights) (rounds n weights period current)
      × (length (rounds n weights period current) ≡ n)
unfolding rounds
rounds-AllBelow zero weights period current h = (tt, refl)
rounds-AllBelow (suc n) weights period current h =
    let (below, count) = rounds-AllBelow n weights period (round weights period current).0 h in
    ((omega (arith, round-lt weights period current h), below), omega (arith, count))

pub length-map : (f : ℕ → ℕ) (xs : List ℕ) → length (map f xs) ≡ length xs
length-map f [] = refl
length-map f (x ∷ xs) = omega (arith, length-map f xs)

no_weights : (weights : List ℕ) → (gcd_all 0 weights == 0) ≡ false → 0 < length weights
unfolding gcd_all
no_weights [] h = absurd (cc)
no_weights (w ∷ weights) h = omega arith

-- The weights over their greatest common divisor, as the code computes it.
abbrev pub reduced : List ℕ → List ℕ
reduced weights = map (λ w. w / gcd_all 0 weights) weights

abbrev pub IsSchedule : List ℕ → Result InvalidRule (List ℕ) → Type 0
IsSchedule weights (err zero_total_weight) = gcd_all 0 weights ≡ 0
IsSchedule weights (err (weight_period_too_large period)) =
    (period ≡ total (reduced weights)) × (max_weight_period < period)
IsSchedule weights (err _) = ⊥
IsSchedule weights (ok schedule) =
    (length schedule ≡ total (reduced weights))
    × (length schedule ≤ max_weight_period)
    × AllBelow (length weights) schedule

-- For every list of weights, smooth_wrr_schedule either refuses weights whose greatest common
-- divisor is zero, or a period above 2^16, which is the total of the reduced weights, or gives a
-- schedule of exactly that length, at most 2^16, whose every pick is the position of a weight.
pub smooth_wrr_schedule-IsSchedule :
    (weights : List ℕ) → IsSchedule weights (smooth_wrr_schedule weights)
unfolding smooth_wrr_schedule
smooth_wrr_schedule-IsSchedule weights = elim (Bool-cases (gcd_all 0 weights == 0)) [
  | inl none_left ↦ rw (none_left, smooth_wrr_schedule) (ground (arith, none_left))
  | inr some_left ↦ elim (Bool-cases (ltb max_weight_period (total (reduced weights)))) [
    | inl long ↦ rw (some_left, long, smooth_wrr_schedule) (refl, ground (arith, long))
    | inr short ↦
        let period = total (reduced weights) in
        let same = length-map (λ w. w / gcd_all 0 weights) weights in
        let (below, count) =
          rounds-AllBelow period (reduced weights) period (zeros (reduced weights))
            (omega (arith, same, no_weights weights some_left)) in
        rw (some_left, short, smooth_wrr_schedule)
          (
            count,
            ground (arith, count, short),
            subst
                (λ n. AllBelow n (rounds period (reduced weights) period (zeros (reduced weights))))
                same below,
          )
  ]
]
