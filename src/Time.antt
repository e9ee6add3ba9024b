-- ===== src/Time.antt =====
-- `std::time::Duration` and `Instant` (and tokio's, which wraps it), in nanoseconds. The last
-- instant that the platform can represent is an argument of what adds to an instant.
use tgin.Prelude.{
  ℕ, ◌+◌, ◌-◌, ◌*◌, ◌≤◌, ◌^◌, ◌≡◌, Option, none, some, arith, leb, if◌then◌else◌, min,
}

abbrev pub nanos_per_sec : ℕ
nanos_per_sec = 1_000_000_000

-- `Duration::MAX`: `u64::MAX` seconds and 999 999 999 ns.
abbrev pub duration_max : ℕ
duration_max = 2 ^ 64 * 1_000_000_000 - 1

-- `Instant::checked_add`.
unfoldable pub checked_add : ℕ → ℕ → ℕ → Option ℕ
checked_add last t d = if leb (t + d) last then some (t + d) else none

-- `Instant::saturating_duration_since`.
abbrev pub saturating_duration_since : ℕ → ℕ → ℕ
saturating_duration_since t earlier = t - earlier

-- `Duration::checked_mul` and `Duration::saturating_add`.
unfoldable pub checked_mul : ℕ → ℕ → Option ℕ
checked_mul d k = if leb (d * k) duration_max then some (d * k) else none

unfoldable pub duration_add : ℕ → ℕ → ℕ
duration_add d e = min (d + e) duration_max

pub checked_add-some : (last t d : ℕ) → t + d ≤ last → checked_add last t d ≡ some (t + d)
unfolding checked_add
checked_add-some last t d h = ground arith
