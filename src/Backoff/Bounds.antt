-- ===== src/Backoff/Bounds.antt =====
-- How long the delays of crates/tgin-runtime/src/backoff.rs are.
use tgin.Prelude.{
  ℕ, zero, suc, ◌+◌, ◌*◌, ◌^◌, ◌≤◌, ◌≡◌, min, max, some, List, [], ◌∷◌, get_elem?, arith,
}
use native.Mathlib.Nat.{pow-le-pow_right}
use tgin.Prelude.Words.{u64_max, u32_max, saturating_add_u32}
use tgin.Backoff.{Backoff, ceiling, next_delay, honor_retry_after, delays}

-- What `random_range(0..=bound)` gives.
abbrev pub WithinBounds : List (ℕ → ℕ) → Type 0
WithinBounds [] = Unit {0}
WithinBounds (draw ∷ draws) = ((bound : ℕ) → draw bound ≤ bound) × WithinBounds draws

pow_mono : (a b : ℕ) → a ≤ b → 2 ^ a ≤ 2 ^ b
pow_mono a b h = pow-le-pow_right {n = 2} (omega arith) h

mul_mono : (n a b : ℕ) → a ≤ b → n * a ≤ n * b
mul_mono zero a b h = omega arith
mul_mono (suc n) a b h = omega (arith, mul_mono n a b h)

ceiling-le : (b : Backoff) (a : ℕ) → b.attempt ≤ a → ceiling b ≤ min b.max_delay (b.initial * 2 ^ a)
unfolding ceiling
ceiling-le b a h =
    let grows : b.initial * min (2 ^ b.attempt) u32_max ≤ b.initial * 2 ^ a =
      mul_mono b.initial (min (2 ^ b.attempt) u32_max) (2 ^ a)
        (omega (arith, pow_mono b.attempt a h)) in
    omega (arith, grows)

delays-le_from :
    (draws : List (ℕ → ℕ)) (b : Backoff) (k delay a : ℕ)
    → WithinBounds draws
    → b.attempt ≤ a
    → get_elem? (delays draws b) k ≡ some delay
    → (b.floor ≤ delay) × (delay ≤ max b.floor (min b.max_delay (b.initial * 2 ^ (a + k))))
unfolding delays next_delay saturating_add_u32
delays-le_from [] b k delay a w s h = absurd (cc)
delays-le_from (draw ∷ draws) b zero delay a w s h =
    let bound = min (ceiling b) u64_max in
    let same : a + 0 ≡ a = omega arith in
    let drawn : delay ≡ max (draw bound) b.floor = ground (arith, h) in
    rw same (omega (arith, drawn, w.0 bound, ceiling-le b a s))
delays-le_from (draw ∷ draws) b (suc k) delay a w s h =
    let same : a + suc k ≡ (a + 1) + k = omega arith in
    rw same (delays-le_from draws (next_delay draw b).0 k delay (a + 1) w.1 (omega (arith, s)) h)

-- With draws within their bounds, the k-th delay in a row is at least the floor, and at most the
-- larger of the floor and of the smaller of the maximum and the initial delay doubled once for
-- each attempt before it.
pub delays-le :
    (draws : List (ℕ → ℕ)) (b : Backoff) (k delay : ℕ)
    → WithinBounds draws
    → get_elem? (delays draws b) k ≡ some delay
    → (b.floor ≤ delay) × (delay ≤ max b.floor (min b.max_delay (b.initial * 2 ^ (b.attempt + k))))
delays-le draws b k delay w h = delays-le_from draws b k delay b.attempt w (omega arith) h

-- With a draw within its bound, the wait after an error that names a retry_after is at least the
-- floor and at least the retry_after up to its cap, and at most the largest of the floor, the
-- maximum and the cap.
pub honor_retry_after-next_delay :
    (draw : ℕ → ℕ) (b : Backoff) (retry_after cap : ℕ)
    → ((bound : ℕ) → draw bound ≤ bound)
    → let delay = honor_retry_after (next_delay draw b).1 (some retry_after) cap in
      (b.floor ≤ delay)
      × (min retry_after cap ≤ delay)
      × (delay ≤ max (max b.floor b.max_delay) cap)
unfolding honor_retry_after next_delay ceiling
honor_retry_after-next_delay draw b retry_after cap w = omega (arith, w (min (ceiling b) u64_max))
