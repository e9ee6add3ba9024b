-- ===== src/Limit/Quota.antt =====
-- `Quota` of crates/tgin-runtime/src/limit.rs: the interval of a rate, and one step of the GCRA.
use tgin.Prelude.{
  ℕ, suc, ◌+◌, ◌-◌, ◌*◌, ◌/◌, ◌≤◌, ◌<◌, ◌≡◌, Option, none, some, ◌==◌, ltb, if◌then◌else◌, max,
  arith, Result, ok, err, Bool-cases, ==_iff, inl, inr, leb, zero, true, false,
}
use tgin.Time.{duration_max, checked_add, saturating_duration_since, checked_mul, duration_add}

pub data QuotaError : Type 0 where
  zero_period : QuotaError

pub record Quota : Type 0 where
  pub interval : ℕ
  pub tolerance : ℕ

-- `count` is a `NonZeroU32`.
unfoldable pub interval : ℕ → ℕ → Result QuotaError ℕ
unfolding checked_mul duration_add
interval count per =
    if per == 0
    then err zero_period
    else let floor = per / count in
      ok (elim (checked_mul floor count) [
        | some exact ↦ if exact == per then floor else duration_add floor 1
        | none ↦ duration_add floor 1
      ])

-- `Quota::new`, with what it does with an interval.
abbrev pub or_max : Option ℕ → ℕ
or_max none = duration_max
or_max (some d) = d

unfoldable pub new : ℕ → ℕ → ℕ → Result QuotaError Quota
unfolding interval checked_mul
new count per burst = elim (interval count per) [
  | err e ↦ err e
  | ok spacing ↦
      ok (record { interval = spacing; tolerance = or_max (checked_mul spacing (burst - 1)) })
]

pub data Tat : Type 0 where
  at : ℕ → Tat
  never : Tat

pub record Denied : Type 0 where
  pub retry_after : ℕ

abbrev pub tat_or_never : Option ℕ → Tat
tat_or_never none = never
tat_or_never (some t) = at t

-- The end of `book`, at a schedule that is not before `now`.
unfoldable pub book_at : ℕ → Quota → ℕ → ℕ → ℕ → Result Denied (Tat × ℕ)
unfolding checked_add
book_at last q tat now max_delay =
    let wait = saturating_duration_since tat now - q.tolerance in
    if ltb max_delay wait
    then err (record { retry_after = wait })
    else ok (tat_or_never (checked_add last tat q.interval), wait)

unfoldable pub book : ℕ → Quota → Option Tat → ℕ → ℕ → Result Denied (Tat × ℕ)
unfolding book_at
book last q none now max_delay = book_at last q now now max_delay
book last q (some (at tat)) now max_delay = book_at last q (max tat now) now max_delay
book last q (some never) now max_delay = err (record { retry_after = duration_max })

-- What the interval promises: the period divided, rounded up.
abbrev pub IsCeiling : ℕ → ℕ → Result QuotaError ℕ → Type 0
IsCeiling count per (err e) = per ≡ 0
IsCeiling count per (ok spacing) = (per ≤ spacing * count) × (spacing * count < per + count)

mul-le : (k d : ℕ) → 0 < k → d ≤ d * k
mul-le zero d h = elim h [ ]
mul-le (suc k) d h = omega arith

inexact_less : (a b : ℕ) → a ≤ b → (a == b) ≡ false → a < b
inexact_less a b h g = ground arith

-- A floor that is not exact is one short of the ceiling.
rounded_up :
    (d count per : ℕ)
    → 0 < count
    → per ≤ duration_max
    → d * count ≤ per
    → per < d * count + count
    → ((d * count) == per) ≡ false
    → (per ≤ duration_add d 1 * count) × (duration_add d 1 * count < per + count)
unfolding duration_add
rounded_up d count per h fits low high inexact =
    let small : d ≤ d * count = mul-le count d h in
    let exact : duration_add d 1 ≡ d + 1 =
      omega (arith, small, low, fits, inexact_less (d * count) per low inexact) in
    rw (exact) (
      omega (arith, high, inexact_less (d * count) per low inexact),
      omega (arith, inexact_less (d * count) per low inexact),
    )

-- For a positive count and any period that a Duration holds, the interval is the period divided
-- by the count, rounded up; the only error is that of a zero period.
pub interval-IsCeiling :
    (count per : ℕ) → 0 < count → per ≤ duration_max → IsCeiling count per (interval count per)
unfolding interval checked_mul
interval-IsCeiling count per h fits =
    let d = per / count in
    let low : d * count ≤ per = omega arith in
    let high : per < d * count + count = omega arith in
    let small : leb (d * count) duration_max ≡ true = ground arith in
    elim (Bool-cases (per == 0)) [
      | inl is_zero ↦ rw (is_zero, interval) ((==_iff per 0).0 is_zero)
      | inr positive ↦ elim (Bool-cases ((d * count) == per)) [
        | inl exact ↦ simp (positive, small, exact, interval) (ground (arith, exact))
        | inr inexact ↦
            simp (positive, small, inexact, interval)
              (rounded_up d count per h fits low high inexact)
      ]
    ]
