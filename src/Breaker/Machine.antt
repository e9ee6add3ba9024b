-- ===== src/Breaker/Machine.antt =====
-- The breaker of crates/tgin-runtime/src/breaker.rs seen as a machine of three phases.
use tgin.Prelude.{
  ℕ, ◌+◌, ◌^◌, ◌≤◌, ◌<◌, min, ◌≡◌, refl, Bool, true, false, List, [], ◌∷◌, ◌↔◌, some, leb, ltb,
  ◌==◌, if◌then◌else◌, arith,
}
use tgin.Prelude.Words.{u64_max, u32_max, saturating_add}
use tgin.Breaker.{
  Breaker, BreakerConfig, state_bits, opened_at_bits, pack, max_offset, offset, offset_from, allow,
  on_success, on_failure, ready_in, reopens_at, closed, opened,
}

pub data Phase : Type 0 where
  phase_closed : ℕ → Phase
  phase_open : ℕ → Phase
  phase_half_open : Phase

abbrev pub view_of : ℕ → ℕ → ℕ → Phase
view_of s failures opened_at =
    if s == closed
    then phase_closed failures
    else if s == opened
    then phase_open opened_at
    else phase_half_open

abbrev pub view : Breaker → Phase
view b = view_of (state_bits b.word) b.failures (opened_at_bits b.word)

pub record IsValid (b : Breaker) : Type 0 where
  pub word_fits : b.word < 2 ^ 64
  pub known_state : state_bits b.word ≤ 2
  pub failures_fit : b.failures ≤ u32_max
  pub threshold_fits : b.cfg.failure_threshold ≤ u32_max

module _ (cfg : BreakerConfig) where
  pub allow_phase : ℕ → Phase → Phase × Bool
  unfolding saturating_add
  allow_phase at (phase_closed n) = (phase_closed n, true)
  allow_phase at (phase_open since) =
      if ltb at (saturating_add since (min cfg.open_for u64_max))
      then (phase_open since, false)
      else (phase_half_open, true)
  allow_phase at phase_half_open = (phase_half_open, false)

  pub fail_phase : ℕ → Phase → Phase
  fail_phase at (phase_closed n) =
      if leb cfg.failure_threshold (n + 1) then phase_open at else phase_closed (n + 1)
  fail_phase at (phase_open since) = phase_open since
  fail_phase at phase_half_open = phase_open at

-- `pack` and the two masks are inverse on what fits.
pub pack_fields :
    (s t : ℕ)
    → s < 4
    → t ≤ max_offset
    → (state_bits (pack s t) ≡ s) × (opened_at_bits (pack s t) ≡ t) × (pack s t < 2 ^ 64)
unfolding pack
pack_fields s t h k = omega arith

on_success-IsValid : (b : Breaker) → IsValid b → IsValid (on_success b)
unfolding on_success
on_success-IsValid b v = ground (arith, v)

module _ (last : ℕ) where
  pub offset-le : (b : Breaker) (t : ℕ) → offset last b t ≤ max_offset
  unfolding offset_from
  offset-le b t = omega arith

  module _ (b : Breaker) (now : ℕ) (v : IsValid b) where
    at : ℕ
    at = offset last b now

    pub allow-view :
        (view (allow last b now).0 ≡ (allow_phase b.cfg (offset last b now) (view b)).0)
        × ((allow last b now).1 ≡ (allow_phase b.cfg (offset last b now) (view b)).1)
    unfolding allow allow_phase reopens_at pack
    allow-view = ground (arith, v.word_fits, v.known_state)

    pub allow-IsValid : IsValid (allow last b now).0
    unfolding allow pack
    allow-IsValid = ground (arith, v)

    pub on_failure-view :
        view (on_failure last b now) ≡ fail_phase b.cfg (offset last b now) (view b)
    unfolding on_failure fail_phase pack
    on_failure-view = ground (arith, v, offset-le b now)

    pub on_failure-IsValid : IsValid (on_failure last b now)
    unfolding on_failure pack
    on_failure-IsValid = ground (arith, v, offset-le b now)

    -- On a valid breaker, ready_in returns a wait of zero exactly when allow, at the same
    -- instant, lets the call in.
    pub ready_in-allow : (ready_in last b now ≡ some 0) ↔ ((allow last b now).1 ≡ true)
    unfolding ready_in allow
    ready_in-allow = (λ h. ground arith, λ h. ground arith)

-- The calls of one thread after another, each with the instant that it passes.
pub data Call : Type 0 where
  allows fails : ℕ → Call
  succeeds : Call

module _ (last : ℕ) where
  pub run : Breaker → List Call → Breaker × List Bool
  run b [] = (b, [])
  run b (allows now ∷ calls) =
      let (c, answer) = allow last b now in let (d, answers) = run c calls in (d, answer ∷ answers)
  run b (fails now ∷ calls) = run (on_failure last b now) calls
  run b (succeeds ∷ calls) = run (on_success b) calls

  -- The same calls on the phase alone; the configuration and the base do not change.
  pub run_phase : BreakerConfig → ℕ → Phase → List Call → Phase × List Bool
  run_phase cfg base p [] = (p, [])
  run_phase cfg base p (allows now ∷ calls) =
      let (q, answer) = allow_phase cfg (offset_from last base now) p in
      let (r, answers) = run_phase cfg base q calls in (r, answer ∷ answers)
  run_phase cfg base p (fails now ∷ calls) =
      run_phase cfg base (fail_phase cfg (offset_from last base now) p) calls
  run_phase cfg base p (succeeds ∷ calls) = run_phase cfg base (phase_closed 0) calls

  abbrev pub Refines : Breaker → List Call → Type 0
  Refines b calls =
      (view (run b calls).0 ≡ (run_phase b.cfg b.base (view b) calls).0)
      × ((run b calls).1 ≡ (run_phase b.cfg b.base (view b) calls).1)

  allow-frame :
      (b : Breaker) (now : ℕ)
      → ((allow last b now).0.cfg ≡ b.cfg) × ((allow last b now).0.base ≡ b.base)
  unfolding allow
  allow-frame b now = ground arith

  on_failure-frame :
      (b : Breaker) (now : ℕ)
      → ((on_failure last b now).cfg ≡ b.cfg) × ((on_failure last b now).base ≡ b.base)
  unfolding on_failure
  on_failure-frame b now = ground arith

  -- On every sequence of calls from every valid breaker, the packed word and the counter give
  -- the phases and the answers of the machine of three phases.
  pub run-Refines : (b : Breaker) (calls : List Call) → IsValid b → Refines b calls
  unfolding run run_phase on_success
  run-Refines b [] v = (refl, refl)
  run-Refines b (allows now ∷ calls) v = ground (
    arith,
    run-Refines (allow last b now).0 calls (allow-IsValid last b now v),
    allow-view last b now v,
    allow-frame b now,
  )
  run-Refines b (fails now ∷ calls) v = ground (
    arith,
    run-Refines (on_failure last b now) calls (on_failure-IsValid last b now v),
    on_failure-view last b now v,
    on_failure-frame b now,
  )
  run-Refines b (succeeds ∷ calls) v = run-Refines (on_success b) calls (on_success-IsValid b v)
