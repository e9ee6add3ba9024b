-- ===== src/Rules/Tests.antt =====
-- Schedules of small weights.
use Prim.Native.Nat.{◌∣◌}
use tgin.Prelude.{◌≡◌, ◌↔◌, refl, [], ◌∷◌, ok, arith, ◌/◌}
use tgin.Rules.Gcd.{AllDivided, gcd_all-AllDivided}
use tgin.Rules.Fair.{occurrences, smooth_wrr_schedule-exact}
use tgin.Rules.Schedule.{
  smooth_wrr_schedule, gcd_all, gcd, gcd_each, total, rounds, round, add_each, subtract_at,
  IsSchedule, smooth_wrr_schedule-IsSchedule,
}

-- The sequence that nginx gives the weights 5, 1 and 1, here twice as large.
five_one_one : smooth_wrr_schedule (10 ∷ 2 ∷ 2 ∷ []) ≡ ok (0 ∷ 0 ∷ 1 ∷ 0 ∷ 2 ∷ 0 ∷ 0 ∷ [])
unfolding smooth_wrr_schedule gcd_all gcd gcd_each total rounds round add_each subtract_at
five_one_one = refl

smooth_wrr_schedule-IsSchedule_example :
    IsSchedule (10 ∷ 2 ∷ 2 ∷ []) (smooth_wrr_schedule (10 ∷ 2 ∷ 2 ∷ []))
smooth_wrr_schedule-IsSchedule_example = smooth_wrr_schedule-IsSchedule (10 ∷ 2 ∷ 2 ∷ [])

gcd_all-AllDivided_example : (2 ∣ gcd_all 0 (10 ∷ 2 ∷ 2 ∷ [])) ↔ AllDivided 2 (10 ∷ 2 ∷ 2 ∷ [])
gcd_all-AllDivided_example = gcd_all-AllDivided 2 (10 ∷ 2 ∷ 2 ∷ [])

smooth_wrr_schedule-exact_example :
    occurrences 0 (0 ∷ 0 ∷ 1 ∷ 0 ∷ 2 ∷ 0 ∷ 0 ∷ []) ≡ 10 / gcd_all 0 (10 ∷ 2 ∷ 2 ∷ [])
smooth_wrr_schedule-exact_example =
    smooth_wrr_schedule-exact (10 ∷ 2 ∷ 2 ∷ []) (0 ∷ 0 ∷ 1 ∷ 0 ∷ 2 ∷ 0 ∷ 0 ∷ []) five_one_one
      (omega arith) 0 10 refl
