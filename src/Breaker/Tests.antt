-- ===== src/Breaker/Tests.antt =====
-- Runs of the breaker, in nanoseconds of a platform whose last instant is `last`.
use tgin.Prelude.{
  ℕ, ◌+◌, ◌^◌, ◌≤◌, ◌≡◌, ◌≢◌, ◌↔◌, refl, true, List, [], ◌∷◌, some, arith, if◌then◌else◌, ◌==◌,
}
use tgin.Breaker.{
  Breaker, BreakerConfig, is_open, is_closed, state, new, allow, on_failure, ready_in, state_bits,
  half_open, pack, compare_exchange, offset_from, open_from,
}
use tgin.Breaker.Machine.{
  IsValid, Call, allows, fails, succeeds, Refines, run-Refines, ready_in-allow,
}
use tgin.Breaker.Timing.{fail_each, fail_each_threshold, reopens_after}
use tgin.Breaker.Threads.{
  System, Inv, Reach, here, next, probing, allow_exchanges, allow_exchange, one_probe,
}

abbrev last : ℕ
last = 2 ^ 63

abbrev config : BreakerConfig
config = record { failure_threshold = 2; open_for = 30 }

abbrev fresh : Breaker
fresh = record { cfg = config; base = 100; word = 0; failures = 0 }

abbrev tripping : List Call
tripping = allows 100 ∷ fails 101 ∷ fails 102 ∷ allows 110 ∷ allows 132 ∷ succeeds ∷ []

new_fresh : new config 100 ≡ fresh
unfolding new pack
new_fresh = refl

fresh-IsValid : IsValid fresh
fresh-IsValid = record {
  word_fits = omega arith;
  known_state = omega arith;
  failures_fit = omega arith;
  threshold_fits = omega arith;
}

run-Refines_example : Refines last fresh tripping
run-Refines_example = run-Refines last fresh tripping fresh-IsValid

ready_in-allow_example : (ready_in last fresh 150 ≡ some 0) ↔ ((allow last fresh 150).1 ≡ true)
ready_in-allow_example = ready_in-allow last fresh 150 fresh-IsValid

fail_each_threshold_example :
    (state (fail_each last fresh (101 ∷ [])) ≡ is_closed)
    × ((state (on_failure last (fail_each last fresh (101 ∷ [])) 102) ≡ is_open) ↔ (0 + 1 + 1 ≡ 2))
fail_each_threshold_example =
    fail_each_threshold last fresh (101 ∷ []) 102 refl (omega arith) (omega arith)

abbrev once_failed : Breaker
once_failed = record fresh { failures = 1 }

not_open : state once_failed ≢ is_open
unfolding state
not_open = λ h. ground (arith, h)

opens : state (on_failure last once_failed 102) ≡ is_open
unfolding state on_failure pack compare_exchange offset_from open_from
opens = ground arith

reopens_after_example :
    ((allow last (on_failure last once_failed 102) 140).1 ≡ true) ↔ (102 + 30 ≤ 140)
reopens_after_example =
    reopens_after last once_failed 102 140 not_open opens (omega arith, omega arith, omega arith)
      (omega arith, omega arith, omega arith)

-- An open breaker, whose time is up, and two calls that both loaded its word.
abbrev two_probes : System last
two_probes = record {
  breaker = record { cfg = config; base = 100; word = 5; failures = 0 };
  calls = probing 5 ∷ probing 5 ∷ [];
  probes = 0;
}

two_probes-Inv : Inv last two_probes
two_probes-Inv = record { known_state = omega arith; loaded = (refl, (refl, tt)); counts = refl }

abbrev one_let_in : System last
one_let_in = record {
  breaker = (allow_exchange last two_probes.breaker 5).0;
  calls = probing 5 ∷ [];
  probes = if (allow_exchange last two_probes.breaker 5).1 then 1 else 0;
}

one_let_in-Reach : Reach last two_probes one_let_in
one_let_in-Reach = next here (allow_exchanges [] (probing 5 ∷ []) 5 refl)

one_probe_example :
    one_let_in.probes ≡ (if state_bits one_let_in.breaker.word == half_open then 1 else 0)
one_probe_example = one_probe last two_probes-Inv one_let_in-Reach
