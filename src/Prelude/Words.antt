-- ===== src/Prelude/Words.antt =====
-- Machine integers as native numbers: `usize` and `u64` are both 64 bits wide.
use Prim.Native.Nat.{ℕ, ◌+◌, ◌-◌, ◌%◌, ◌^◌, ◌≤◌, ◌<◌, min}
use mathlib.Core.Path.{◌≡◌}
use native.Mathlib.Omega.{arith}

abbrev pub word : ℕ
word = 2 ^ 64

abbrev pub u64_max : ℕ
u64_max = 2 ^ 64 - 1

abbrev pub u32_max : ℕ
u32_max = 2 ^ 32 - 1

-- `a + b` and `a - b` of a release build, and of `fetch_add` and `fetch_sub`: they wrap.
unfoldable pub wrapping_add : ℕ → ℕ → ℕ
wrapping_add a b = (a + b) % 2 ^ 64

unfoldable pub wrapping_sub : ℕ → ℕ → ℕ
wrapping_sub a b = (a + (2 ^ 64 - b)) % 2 ^ 64

-- `u64::saturating_add` and `u32::saturating_add`.
unfoldable pub saturating_add : ℕ → ℕ → ℕ
saturating_add a b = min (a + b) u64_max

unfoldable pub saturating_add_u32 : ℕ → ℕ → ℕ
saturating_add_u32 a b = min (a + b) u32_max

pub wrapping_add_exact : (a b : ℕ) → a + b < word → wrapping_add a b ≡ a + b
unfolding wrapping_add
wrapping_add_exact a b h = omega arith

pub wrapping_sub_exact : (a b : ℕ) → b ≤ a → a < word → wrapping_sub a b ≡ a - b
unfolding wrapping_sub
wrapping_sub_exact a b h k = omega arith
