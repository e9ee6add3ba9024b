-- ===== src/Breaker.antt =====
-- The lock-free circuit breaker of crates/tgin-runtime/src/breaker.rs. An atomic is a field; a
-- method that touches it once is a function on the breaker, and `compare_exchange` and the steps
-- between the atomic accesses are in `Breaker.Threads`.
pub mod Machine
pub mod Timing
pub mod Threads
mod Tests
use tgin.Prelude.{
  ℕ, ◌+◌, ◌-◌, ◌*◌, ◌/◌, ◌%◌, ◌^◌, min, Bool, true, false, Option, none, some, leb, ltb, ◌==◌,
  if◌then◌else◌,
}
use tgin.Prelude.Words.{u64_max, u32_max, saturating_add, saturating_add_u32}
use tgin.Time.{nanos_per_sec, checked_add, saturating_duration_since}

pub record BreakerConfig : Type 0 where
  pub failure_threshold : ℕ
  pub open_for : ℕ

abbrev pub default : BreakerConfig
default = record { failure_threshold = 5; open_for = 30 * nanos_per_sec }

pub data BreakerState : Type 0 where
  is_closed is_open is_half_open : BreakerState

abbrev pub offset_shift : ℕ
offset_shift = 365 * 24 * 60 * 60 * nanos_per_sec

-- `u64::MAX >> STATE_BITS`.
abbrev pub max_offset : ℕ
max_offset = u64_max / 4

abbrev pub closed : ℕ
closed = 0

abbrev pub opened : ℕ
opened = 1

abbrev pub half_open : ℕ
half_open = 2

-- `(opened_at << STATE_BITS) | state`: the shift leaves the low two bits zero, so the states, which
-- are below 4, are added.
unfoldable pub pack : ℕ → ℕ → ℕ
pack state opened_at = opened_at * 4 % 2 ^ 64 + state

-- `word & STATE_MASK` and `word >> STATE_BITS`.
abbrev pub state_bits : ℕ → ℕ
state_bits word = word % 4

abbrev pub opened_at_bits : ℕ → ℕ
opened_at_bits word = word / 4

pub record Breaker : Type 0 where
  pub cfg : BreakerConfig
  pub base : ℕ
  pub word : ℕ
  pub failures : ℕ

-- `Breaker::new`, with the instant that `Instant::now` returns.
unfoldable pub new : BreakerConfig → ℕ → Breaker
unfolding pack
new cfg now = record { cfg = cfg; base = now; word = pack closed 0; failures = 0 }

unfoldable pub reopens_at : Breaker → ℕ → ℕ
unfolding saturating_add
reopens_at b opened_at = saturating_add opened_at (min b.cfg.open_for u64_max)

-- The word after `compare_exchange(expected, new)`, and whether it was stored.
unfoldable pub compare_exchange : ℕ → ℕ → ℕ → ℕ × Bool
compare_exchange word expected new = if word == expected then (new, true) else (word, false)

unfoldable pub state : Breaker → BreakerState
state b =
    if state_bits b.word == closed
    then is_closed
    else if state_bits b.word == opened
    then is_open
    else is_half_open

unfoldable pub on_success : Breaker → Breaker
unfolding pack
on_success b = record b { failures = 0; word = pack closed 0 }

module _ (last : ℕ) where
  -- Nanoseconds from `base - OFFSET_SHIFT` to `t`, capped. It reads the base alone.
  unfoldable pub offset_from : ℕ → ℕ → ℕ
  unfolding checked_add
  offset_from base t =
      let shifted : ℕ = elim (checked_add last t offset_shift) [ none ↦ t | some s ↦ s ] in
      min (min (saturating_duration_since shifted base) u64_max) max_offset

  abbrev pub offset : Breaker → ℕ → ℕ
  offset b t = offset_from b.base t

  -- The new breaker and the answer, as one uninterrupted call.
  unfoldable pub allow : Breaker → ℕ → Breaker × Bool
  unfolding compare_exchange
  allow b now =
      if state_bits b.word == closed
      then (b, true)
      else if state_bits b.word == opened
      then (if ltb (offset b now) (reopens_at b (opened_at_bits b.word))
          then (b, false)
          else let (word, stored) =
              compare_exchange b.word b.word (pack half_open (opened_at_bits b.word)) in
            (record b { word = word }, stored))
      else (b, false)

  -- `open`: a lost race changes nothing.
  unfoldable pub open_from : Breaker → ℕ → ℕ → Breaker
  unfolding compare_exchange
  open_from b from now = record b {
    word = (compare_exchange b.word from (pack opened (offset b now))).0;
  }

  unfoldable pub on_failure : Breaker → ℕ → Breaker
  unfolding open_from saturating_add_u32
  on_failure b now =
      if state_bits b.word == half_open
      then open_from b b.word now
      else if state_bits b.word == closed
      then (let counted = record b { failures = (b.failures + 1) % 2 ^ 32 } in
          if leb b.cfg.failure_threshold (saturating_add_u32 b.failures 1)
          then open_from counted b.word now
          else counted)
      else b

  unfoldable pub ready_in : Breaker → ℕ → Option ℕ
  ready_in b now =
      if state_bits b.word == closed
      then some 0
      else if state_bits b.word == opened
      then some (reopens_at b (opened_at_bits b.word) - offset b now)
      else none
