-- ===== src/Breaker/Timing.antt =====
-- When the breaker opens, counted in failures, and when it lets a probe in, in instants.
use tgin.Prelude.{ℕ, ◌+◌, ◌≤◌, ◌<◌, ◌≡◌, ap, ◌≢◌, ◌↔◌, true, List, [], ◌∷◌, arith, length, ◌-◌}
use tgin.Prelude.Words.{u32_max}
use tgin.Breaker.{
  Breaker, BreakerConfig, is_closed, is_open, state_bits, pack, max_offset, offset_shift, offset,
  offset_from, allow, on_failure, reopens_at, closed, opened, state,
}
use tgin.Breaker.Machine.{offset-le}

module _ (last : ℕ) where
  -- `on_failure` at each instant in turn.
  pub fail_each : Breaker → List ℕ → Breaker
  fail_each b [] = b
  fail_each b (t ∷ ts) = fail_each (on_failure last b t) ts

  closed-state : (b : Breaker) → state_bits b.word ≡ closed → state b ≡ is_closed
  unfolding state
  closed-state b e = ground arith

  one_failure :
      (b : Breaker) (t : ℕ)
      → state_bits b.word ≡ closed
      → b.failures + 1 < b.cfg.failure_threshold
      → b.cfg.failure_threshold ≤ u32_max
      → (state_bits (on_failure last b t).word ≡ closed)
        × ((on_failure last b t).failures ≡ b.failures + 1)
        × ((on_failure last b t).cfg ≡ b.cfg)
  unfolding on_failure
  one_failure b t e h k = ground arith

  last_failure :
      (b : Breaker) (t : ℕ)
      → state_bits b.word ≡ closed
      → b.cfg.failure_threshold ≤ b.failures + 1
      → b.failures + 1 ≤ u32_max
      → state (on_failure last b t) ≡ is_open
  unfolding on_failure state pack
  last_failure b t e h k = ground (arith, offset-le last b t)

  -- From a closed breaker, with fewer failures in all than the threshold, which is a u32, the
  -- breaker is closed, and one more failure opens it exactly when it makes the threshold.
  pub fail_each_threshold :
      (b : Breaker) (ts : List ℕ) (t : ℕ)
      → state_bits b.word ≡ closed
      → b.failures + length ts < b.cfg.failure_threshold
      → b.cfg.failure_threshold ≤ u32_max
      → (state (fail_each b ts) ≡ is_closed)
        × ((state (on_failure last (fail_each b ts) t) ≡ is_open)
            ↔ (b.failures + length ts + 1 ≡ b.cfg.failure_threshold))
  unfolding fail_each
  fail_each_threshold b [] t e h k = (
    closed-state b e,
    (
      λ o. ground (arith, one_failure b t e, closed-state (on_failure last b t), o),
      λ q. last_failure b t e (omega arith) (omega arith),
    ),
  )
  fail_each_threshold b (u ∷ ts) t e h k =
      ground (arith, one_failure b u e, fail_each_threshold (on_failure last b u) ts t)

  -- No cap is met where the instant and its shift lie within the platform's range.
  abbrev pub InRange : Breaker → ℕ → Type 0
  InRange b t =
      (b.base ≤ t + offset_shift)
      × (t + offset_shift ≤ last)
      × (t + offset_shift - b.base < max_offset)

  offset_exact : (b : Breaker) (t : ℕ) → InRange b t → offset last b t + b.base ≡ t + offset_shift
  unfolding offset_from
  offset_exact b t h = ground arith

  opening-word :
      (b : Breaker) (from : ℕ)
      → state b ≢ is_open
      → state (on_failure last b from) ≡ is_open
      → ((on_failure last b from).word ≡ pack opened (offset last b from))
        × ((on_failure last b from).cfg ≡ b.cfg)
        × ((on_failure last b from).base ≡ b.base)
  unfolding on_failure state
  opening-word b from h o = ground arith

  allow-opened :
      (b : Breaker) (at now : ℕ)
      → b.word ≡ pack opened at
      → at ≤ max_offset
      → offset last b now < max_offset
      → ((allow last b now).1 ≡ true) ↔ (at + b.cfg.open_for ≤ offset last b now)
  unfolding allow reopens_at pack
  allow-opened b at now e h k = (λ x. ground arith, λ x. ground arith)

  -- A breaker that was not open and that a failure at one instant opened lets a call in at
  -- another exactly when open_for has elapsed between them, as long as both instants lie in the
  -- range that the word can tell apart.
  pub reopens_after :
      (b : Breaker) (from now : ℕ)
      → state b ≢ is_open
      → state (on_failure last b from) ≡ is_open
      → InRange b from
      → InRange b now
      → ((allow last (on_failure last b from) now).1 ≡ true) ↔ (from + b.cfg.open_for ≤ now)
  reopens_after b from now h o p q =
      let c = on_failure last b from in
      let (word, cfg, base) = opening-word b from h o in
      let same : offset last c now ≡ offset last b now = ap (λ z. offset_from last z now) base in
      let asked =
        allow-opened c (offset last b from) now word (offset-le last b from)
          (omega (arith, same, offset_exact b now q)) in
      (
        λ e. omega (
          arith,
          asked.0 e,
          same,
          ap BreakerConfig.open_for cfg,
          offset_exact b from p,
          offset_exact b now q,
        ),
        λ e. asked.1 (
            omega (
              arith,
              same,
              ap BreakerConfig.open_for cfg,
              offset_exact b from p,
              offset_exact b now q,
            )),
      )
