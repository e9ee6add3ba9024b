-- ===== src/Rules/Fair.antt =====
-- How often a weighted split of crates/tgin-core/src/rules/compile.rs picks each child.
use tgin.Prelude.{
  ℕ, zero, suc, ◌+◌, ◌/◌, ◌≤◌, ◌<◌, ◌≡◌, refl, sym, ap, subst, ◌∙◌, some, List, [], ◌∷◌, map,
  length, get_elem?, ltb, ◌==◌, if◌then◌else◌, arith, Bool-cases, inl, inr, ok, ok-cancel,
  some-cancel,
}
use tgin.Prelude.Int.{ℤ, pos, ◌+ℤ◌}
use tgin.Prelude.Words.{u32_max}
use tgin.Rules.Schedule.{
  add_each, subtract_at, round, round-lt, rounds, total, zeros, reduced, gcd_all, index,
  smooth_wrr_schedule, max_weight_period, length-map,
}
use tgin.Rules.Balance.{
  times, times-add, times_comm, times-le, pos_sum, neg_sum, add-parts, PositiveAt,
  add_each-PositiveAt, Balanced, Low, bump, Balanced-same, add_each-Balanced, add_each-Low,
  add_each-sum, subtract_at-Balanced, subtract_at-Low, subtract_at-sum,
}

-- The state between rounds.
record Even (period t : ℕ) (picks : ℕ → ℕ) (ws : List ℕ) (cs : List ℤ) : Type 0 where
  balanced : Balanced period t picks 0 ws cs
  low : Low period cs
  even : pos_sum cs ≡ neg_sum cs

picked-PositiveAt :
    (w : ℕ) (ws : List ℕ) (c : ℤ) (cs : List ℤ)
    → 0 < pos_sum ((c +ℤ pos w) ∷ (add_each 1 0 (c +ℤ pos w) ws cs).0)
    → PositiveAt
        (add_each 1 0 (c +ℤ pos w) ws cs).1
        ((c +ℤ pos w) ∷ (add_each 1 0 (c +ℤ pos w) ws cs).0)
unfolding pos_sum
picked-PositiveAt w ws c cs h =
    let values = (c +ℤ pos w) ∷ (add_each 1 0 (c +ℤ pos w) ws cs).0 in
    elim (add_each-PositiveAt 1 0 (c +ℤ pos w) ws cs h) [
      | inl (e, above) ↦ subst (λ k. PositiveAt k values) {x = 0} (sym e) above
      | inr (k, e, at) ↦
          let next : suc k ≡ (add_each 1 0 (c +ℤ pos w) ws cs).1 = omega (arith, e) in
          subst (λ n. PositiveAt n values) {x = suc k} next at
    ]

round-Even :
    (period t : ℕ) (picks : ℕ → ℕ) (ws : List ℕ) (cs : List ℤ)
    → total ws ≡ period
    → 0 < period
    → Even period t picks ws cs
    → Even period (suc t) (bump (round ws period cs).1 picks) ws (round ws period cs).0
unfolding round pos_sum neg_sum total times
round-Even period t picks [] cs p h s = absurd (omega (arith, p, h))
round-Even period t picks (w ∷ ws) [] p h s = absurd s.balanced
round-Even period t picks (w ∷ ws) (c ∷ cs) p h s =
    let value = c +ℤ pos w in
    let (rest, picked) = add_each 1 0 value ws cs in
    let (e, others) = s.balanced in
    let sum = add_each-sum period t picks 1 1 0 value ws cs others in
    let parts = add-parts c w in
    let at = picked-PositiveAt w ws c cs (omega (arith, sum, parts.0, s.even, p, h)) in
    let balanced : Balanced period (suc t) picks 0 (w ∷ ws) (value ∷ rest) =
      (omega (arith, e, parts.0), add_each-Balanced period t picks 1 1 0 value ws cs others) in
    let low : Low period (value ∷ rest) =
      (omega (arith, parts.1, s.low.0), add_each-Low period 1 0 value ws cs s.low.1) in
    record {
      balanced =
          Balanced-same period (suc t) (bump (0 + picked) picks) (bump picked picks) 0 (w ∷ ws)
            (subtract_at picked period (value ∷ rest))
            (λ j le. ap (λ k. bump k picks j) {x = picked} {y = 0 + picked} (omega arith))
            (subtract_at-Balanced period (suc t) picks 0 picked (w ∷ ws) (value ∷ rest) balanced
              at);
      low = subtract_at-Low period picked (value ∷ rest) low at h;
      even =
          omega (arith, subtract_at-sum period picked (value ∷ rest) at, sum, parts.0, s.even, p);
    }

-- How often a schedule picks a position.
unfoldable pub occurrences : ℕ → List ℕ → ℕ
occurrences k [] = 0
occurrences k (x ∷ xs) = if k == x then suc (occurrences k xs) else occurrences k xs

total-length : (ws : List ℕ) → 0 < total ws → 0 < length ws
unfolding total
total-length [] h = h
total-length (w ∷ ws) h = omega arith

rounds-Even :
    (n period t : ℕ) (picks total_picks : ℕ → ℕ) (ws : List ℕ) (cs : List ℤ)
    → total ws ≡ period
    → 0 < period
    → length ws ≤ u32_max
    → Even period t picks ws cs
    → ((j : ℕ) → total_picks j ≡ picks j + occurrences j (rounds n ws period cs))
    → (last : List ℤ) × Even period (n + t) total_picks ws last
unfolding rounds occurrences bump
rounds-Even zero period t picks total_picks ws cs p h small s count = (
  cs,
  subst (λ k. Even period k total_picks ws cs) {x = t} {y = 0 + t} (omega arith)
      (record {
        balanced =
            Balanced-same period t picks total_picks 0 ws cs (λ j le. omega (arith, count j))
              s.balanced;
        low = s.low;
        even = s.even;
      }),
)
rounds-Even (suc n) period t picks total_picks ws cs p h small s count =
    let (next, picked) = round ws period cs in
    let some_child = total-length ws (omega (arith, p, h)) in
    let in_range : index picked ≡ picked = omega (arith, round-lt ws period cs some_child, small) in
    let (last, done) =
      rounds-Even n period (suc t) (bump picked picks) total_picks ws next p h small
        (round-Even period t picks ws cs p h s)
        (λ j.
          count j
          ∙ ap
              (λ k.
                picks j
                + (if j == k
                    then suc (occurrences j (rounds n ws period next))
                    else occurrences j (rounds n ws period next)))
              in_range
          ∙ ground arith) in
    (
      last,
      subst (λ k. Even period k total_picks ws last) {x = n + suc t} {y = suc n + t} (omega arith)
          done,
    )

-- The picks of as many positions as there are weights, from `i` on.
picks_of : (ℕ → ℕ) → ℕ → List ℕ → ℕ
picks_of picks i [] = 0
picks_of picks i (w ∷ ws) = picks i + picks_of picks (suc i) ws

picks_of-sum :
    (period t : ℕ) (picks : ℕ → ℕ) (i : ℕ) (ws : List ℕ) (cs : List ℤ)
    → Balanced period t picks i ws cs
    → pos_sum cs + times (picks_of picks i ws) period ≡ times (total ws) t + neg_sum cs
unfolding pos_sum neg_sum total times picks_of
picks_of-sum period t picks i [] [] b = refl
picks_of-sum period t picks i [] (c ∷ cs) b = absurd b
picks_of-sum period t picks i (w ∷ ws) [] b = absurd b
picks_of-sum period t picks i (w ∷ ws) (c ∷ cs) (e, b) = omega (
  arith,
  e,
  times-add (picks i) (picks_of picks (suc i) ws) period,
  times-add w (total ws) t,
  times_comm t w,
  picks_of-sum period t picks (suc i) ws cs b,
)

-- No child is picked more often than its weight.
abbrev AtMost : (ℕ → ℕ) → ℕ → List ℕ → Type 0
AtMost picks i [] = Unit {0}
AtMost picks i (w ∷ ws) = (picks i ≤ w) × AtMost picks (suc i) ws

Balanced-AtMost :
    (period : ℕ) (picks : ℕ → ℕ) (i : ℕ) (ws : List ℕ) (cs : List ℤ)
    → Balanced period period picks i ws cs
    → Low period cs
    → AtMost picks i ws
Balanced-AtMost period picks i [] cs b l = tt
Balanced-AtMost period picks i (w ∷ ws) [] b l = absurd b
Balanced-AtMost period picks i (w ∷ ws) (c ∷ cs) (e, b) (lt, l) = (
  times-le (picks i) w period (omega (arith, e, lt, times_comm period w)),
  Balanced-AtMost period picks (suc i) ws cs b l,
)

AtMost-sum :
    (picks : ℕ → ℕ) (i : ℕ) (ws : List ℕ) → AtMost picks i ws → picks_of picks i ws ≤ total ws
unfolding picks_of total
AtMost-sum picks i [] a = omega arith
AtMost-sum picks i (w ∷ ws) (le, a) = omega (arith, le, AtMost-sum picks (suc i) ws a)

AtMost-exact :
    (picks : ℕ → ℕ) (i : ℕ) (ws : List ℕ)
    → AtMost picks i ws
    → picks_of picks i ws ≡ total ws
    → (k w : ℕ) → get_elem? ws k ≡ some w
    → picks (i + k) ≡ w
unfolding picks_of total
AtMost-exact picks i [] a e k w at = absurd (cc at)
AtMost-exact picks i (v ∷ ws) (le, a) e zero w at =
    let same : v ≡ w = some-cancel refl at in
    ap picks {x = i + 0} {y = i} (omega arith)
    ∙ omega (arith, e, le, AtMost-sum picks (suc i) ws a, same)
AtMost-exact picks i (v ∷ ws) (le, a) e (suc k) w at =
    ap picks {x = i + suc k} {y = suc i + k} (omega arith)
    ∙ AtMost-exact picks (suc i) ws a (omega (arith, e, le, AtMost-sum picks (suc i) ws a)) k w at

zeros-Even : (period : ℕ) (ws : List ℕ) → 0 < period → Even period 0 (λ j. 0) ws (zeros ws)
unfolding pos_sum neg_sum times
zeros-Even period ws h = record { balanced = flat 0 ws; low = shallow ws; even = level ws }
  where
    flat : (i : ℕ) (ws : List ℕ) → Balanced period 0 (λ j. 0) i ws (zeros ws)
    flat i [] = tt
    flat i (w ∷ ws) = (refl, flat (suc i) ws)

    shallow : (ws : List ℕ) → Low period (zeros ws)
    shallow [] = tt
    shallow (w ∷ ws) = (h, shallow ws)

    level : (ws : List ℕ) → pos_sum (zeros ws) ≡ neg_sum (zeros ws)
    level [] = refl
    level (w ∷ ws) = omega (arith, level ws)

-- A whole period picks every child as often as its weight.
rounds-exact :
    (ws : List ℕ)
    → 0 < total ws
    → length ws ≤ u32_max
    → (k w : ℕ) → get_elem? ws k ≡ some w
    → occurrences k (rounds (total ws) ws (total ws) (zeros ws)) ≡ w
rounds-exact ws h small k w at =
    let period = total ws in
    let schedule = rounds period ws period (zeros ws) in
    let picks : ℕ → ℕ = λ j. occurrences j schedule in
    let (last, s) =
      rounds-Even period period 0 (λ j. 0) picks ws (zeros ws) refl h small (zeros-Even period ws h)
        (λ j. omega arith) in
    let done : Even period period picks ws last =
      subst (λ t. Even period t picks ws last) {x = period + 0} {y = period} (omega arith) s in
    let sum = picks_of-sum period period picks 0 ws last done.balanced in
    let most = Balanced-AtMost period picks 0 ws last done.balanced done.low in
    let all : picks_of picks 0 ws ≡ period = omega (
      arith,
      times-le (picks_of picks 0 ws) period period (omega (arith, sum, done.even, h)),
      times-le period (picks_of picks 0 ws) period (omega (arith, sum, done.even, h)),
    ) in
    ap picks {x = k} {y = 0 + k} (omega arith) ∙ AtMost-exact picks 0 ws most all k w at

get_elem?-map :
    (f : ℕ → ℕ) (xs : List ℕ) (k x : ℕ)
    → get_elem? xs k ≡ some x
    → get_elem? (map f xs) k ≡ some (f x)
get_elem?-map f [] k x h = absurd (cc h)
get_elem?-map f (y ∷ xs) zero x h = ap (λ n. some (f n)) (some-cancel refl h)
get_elem?-map f (y ∷ xs) (suc k) x h = get_elem?-map f xs k x h

get_elem?-total : (ws : List ℕ) (k w : ℕ) → get_elem? ws k ≡ some w → w ≤ total ws
unfolding total
get_elem?-total [] k w h = absurd (cc h)
get_elem?-total (v ∷ ws) zero w h = let same : v ≡ w = some-cancel refl h in omega (arith, same)
get_elem?-total (v ∷ ws) (suc k) w h = omega (arith, get_elem?-total ws k w h)

rounds-none :
    (n period : ℕ) (ws : List ℕ) (cs : List ℤ) (k : ℕ)
    → n ≡ 0
    → occurrences k (rounds n ws period cs) ≡ 0
unfolding rounds occurrences
rounds-none zero period ws cs k e = refl
rounds-none (suc n) period ws cs k e = absurd (omega (arith, e))

-- Over one whole schedule that smooth_wrr_schedule gives for at most 2^32 - 1 weights, every
-- position is picked exactly as often as its weight says, divided by the number that gcd folds
-- the weights to.
pub smooth_wrr_schedule-exact :
    (weights schedule : List ℕ)
    → smooth_wrr_schedule weights ≡ ok schedule
    → length weights ≤ u32_max
    → (k w : ℕ) → get_elem? weights k ≡ some w
    → occurrences k schedule ≡ w / gcd_all 0 weights
unfolding smooth_wrr_schedule
smooth_wrr_schedule-exact weights schedule h small k w at =
    elim (Bool-cases (gcd_all 0 weights == 0)) [
      | inl zero_gcd ↦ absurd (ground (arith, h, zero_gcd))
      | inr some_gcd ↦ elim (Bool-cases (ltb max_weight_period (total (reduced weights)))) [
        | inl long ↦ absurd (ground (arith, h, some_gcd, long))
        | inr short ↦
            let ws = reduced weights in
            let whole : smooth_wrr_schedule weights
                ≡ ok (rounds (total ws) ws (total ws) (zeros ws)) =
              rw (some_gcd, short, smooth_wrr_schedule) refl in
            let there = get_elem?-map (λ v. v / gcd_all 0 weights) weights k w at in
            let same = length-map (λ v. v / gcd_all 0 weights) weights in
            subst (λ s. occurrences k s ≡ w / gcd_all 0 weights) (ok-cancel whole h)
              (elim (Bool-cases (ltb 0 (total ws))) [
                | inl above ↦
                    rounds-exact ws (ground (arith, above)) (omega (arith, same, small)) k _ there
                | inr none_left ↦
                    let empty : total ws ≡ 0 = ground (arith, none_left) in
                    rounds-none (total ws) (total ws) ws (zeros ws) k empty
                    ∙ omega (arith, get_elem?-total ws k _ there, empty)
              ])
      ]
    ]
