-- ===== src/Backoff/Tests.antt =====
-- A backoff in nanoseconds, with draws of half the bound.
use tgin.Prelude.{ℕ, ◌/◌, ◌+◌, ◌*◌, ◌^◌, ◌≤◌, ◌≡◌, refl, min, max, some, [], ◌∷◌, get_elem?, arith}
use tgin.Prelude.Words.{saturating_add_u32}
use tgin.Backoff.{Backoff, ceiling, next_delay, honor_retry_after, delays}
use tgin.Backoff.Bounds.{delays-le, honor_retry_after-next_delay}

abbrev half : ℕ → ℕ
half bound = bound / 2

abbrev backoff : Backoff
backoff = record { initial = 100; max_delay = 1000; floor = 10; attempt = 0 }

half-le : (bound : ℕ) → half bound ≤ bound
half-le bound = omega arith

second_delay : get_elem? (delays (half ∷ half ∷ []) backoff) 1 ≡ some 100
unfolding delays next_delay ceiling saturating_add_u32
second_delay = refl

delays-le_example : (10 ≤ 100) × (100 ≤ max 10 (min 1000 (100 * 2 ^ (0 + 1))))
delays-le_example = delays-le (half ∷ half ∷ []) backoff 1 100 (half-le, (half-le, tt)) second_delay

honor_retry_after-next_delay_example :
    let delay = honor_retry_after (next_delay half backoff).1 (some 5000) 2000 in
    (10 ≤ delay) × (min 5000 2000 ≤ delay) × (delay ≤ max (max 10 1000) 2000)
honor_retry_after-next_delay_example = honor_retry_after-next_delay half backoff 5000 2000 half-le
