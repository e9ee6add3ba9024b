-- ===== src/Backoff.antt =====
-- Full-jitter exponential backoff: crates/tgin-runtime/src/backoff.rs. A random draw is the parameter
-- `draw`, from a bound to a number that is at most the bound.
pub mod Bounds
mod Tests
use tgin.Prelude.{ℕ, ◌+◌, ◌*◌, ◌^◌, min, max, Option, none, some, List, [], ◌∷◌}
use tgin.Prelude.Words.{u64_max, u32_max, saturating_add_u32}
use tgin.Time.{duration_max}

pub record Backoff : Type 0 where
  pub initial : ℕ
  pub max_delay : ℕ
  pub floor : ℕ
  pub attempt : ℕ

unfoldable pub new : ℕ → ℕ → ℕ → Backoff
new initial max_delay floor = record {
  initial = initial;
  max_delay = max_delay;
  floor = floor;
  attempt = 0;
}

-- `min(max, initial * 2^attempt)`, as the code computes it.
unfoldable pub ceiling : Backoff → ℕ
ceiling b = min (min (b.initial * min (2 ^ b.attempt) u32_max) duration_max) b.max_delay

unfoldable pub next_delay : (ℕ → ℕ) → Backoff → Backoff × ℕ
unfolding ceiling saturating_add_u32
next_delay draw b =
    let drawn = draw (min (ceiling b) u64_max) in
    (record b { attempt = saturating_add_u32 b.attempt 1 }, max drawn b.floor)

unfoldable pub reset : Backoff → Backoff
reset b = record b { attempt = 0 }

unfoldable pub honor_retry_after : ℕ → Option ℕ → ℕ → ℕ
honor_retry_after computed (some retry_after) cap = max computed (min retry_after cap)
honor_retry_after computed none cap = computed

-- The delays of attempts in a row, one draw for each.
unfoldable pub delays : List (ℕ → ℕ) → Backoff → List ℕ
unfolding next_delay
delays [] b = []
delays (draw ∷ draws) b = let (c, delay) = next_delay draw b in delay ∷ delays draws c
