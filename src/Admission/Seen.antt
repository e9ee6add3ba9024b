-- ===== src/Admission/Seen.antt =====
-- What a pass of `reserve` of crates/tgin-core/src/admission.rs does to each slot.
use tgin.Prelude.{
  ℕ, ◌+◌, ◌<◌, ◌≡◌, refl, sym, ap, subst, ◌∙◌, false, Option, none, some, List, [], ◌∷◌, ◌++◌, ◌==◌,
  ==_iff, if◌then◌else◌, arith, Bool-cases, inl, inr, ◌⊎◌, ltb, ◌%◌, ◌-◌, ◌^◌, length, some-cancel,
  Result, ok, err,
}
use tgin.Prelude.Words.{word, wrapping_add, wrapping_sub}
use tgin.Core.{Envelope}
use tgin.Queue.Types.{
  LeaseQueue, Permit, OnFull, backpressure, drop_oldest, Full, items_full, bytes_full, too_large,
}
use tgin.Queue.Ops.{try_reserve, cancel, grant, drop_permit, reserved as reserved_of}
use tgin.Queue.Inv.{Fits, Coherent}
use tgin.Queue.Reserve.{room-cases}
use tgin.Queue.Reserve.Spec.{Limits, Reserves, try_reserve-Reserves}
use tgin.Rules.Shape.{append-nil}
use tgin.Admission.Slots.{
  Slot, Target, set_slot, pressured, relieved, overflowed, reserved_cleanly, count_pressure,
  with_queue,
}
use tgin.Admission.Reserving.{SlotMap, Permits, answered, after_reserving, cancel_each}

-- A queue between calls.
pub record Healthy (q : LeaseQueue Envelope) : Type 0 where
  pub coherent : Coherent q.inner
  pub fits : Fits q.inner
  pub limits : Limits q.inner.cfg
  pub items_held : q.reserved_items < word
  pub bytes_held : q.reserved_bytes < word

-- The permits of one slot, in order.
unfoldable pub permits_at : ℕ → Permits → List Permit
permits_at i [] = []
permits_at i ((target, permit) ∷ permits) =
    if i == target.slot then permit ∷ permits_at i permits else permits_at i permits

unfoldable pub cancel_list : List Permit → LeaseQueue Envelope → LeaseQueue Envelope
cancel_list [] q = q
cancel_list (permit ∷ permits) q = cancel_list permits (cancel permit q)

-- What happened to a queue so far, by the pass that it was visited in.
pub data Seen (size : ℕ) (base : LeaseQueue Envelope)
    : Option OnFull → List Permit → LeaseQueue Envelope → Type 0 where
  untouched : Seen size base none [] base
  taken :
      {pass : OnFull} {q : LeaseQueue Envelope} {permit : Permit}
      → try_reserve base size ≡ some (q, ok permit)
      → Seen size base (some pass) (permit ∷ []) q
  passed :
      {pass : OnFull} {q : LeaseQueue Envelope} (full : Full)
      → try_reserve base size ≡ some (q, err full)
      → (full ≡ too_large) ⊎ (pass ≡ drop_oldest)
      → Seen size base (some pass) [] q

-- The passes of the slots after the targets of one.
unfoldable pub visit : OnFull → List Target → (ℕ → Option OnFull) → ℕ → Option OnFull
visit pass [] modes = modes
visit pass (target ∷ targets) modes =
    visit pass targets (λ i. if i == target.slot then some pass else modes i)

-- No slot is visited twice.
abbrev pub Fresh : OnFull → List Target → (ℕ → Option OnFull) → Type 0
Fresh pass [] modes = Unit
Fresh pass (target ∷ targets) modes =
    (modes target.slot ≡ none)
    × Fresh pass targets (λ i. if i == target.slot then some pass else modes i)

pub permits_at-append :
    (i : ℕ) (permits more : Permits)
    → permits_at i (permits ++ more) ≡ permits_at i permits ++ permits_at i more
unfolding permits_at
permits_at-append i [] more = refl
permits_at-append i ((target, permit) ∷ permits) more =
    ground (arith, permits_at-append i permits more)

pub permits_at-same :
    (target : Target) (permit : Permit) (permits : Permits)
    → permits_at target.slot (permits ++ (target, permit) ∷ [])
      ≡ permits_at target.slot permits ++ permit ∷ []
unfolding permits_at
permits_at-same target permit permits = ground (
  arith,
  permits_at-append target.slot permits ((target, permit) ∷ []),
  (==_iff target.slot target.slot).1 refl,
)

pub permits_at-other :
    (i : ℕ) (target : Target) (permit : Permit) (permits : Permits)
    → (i == target.slot) ≡ false
    → permits_at i (permits ++ (target, permit) ∷ []) ≡ permits_at i permits
unfolding permits_at
permits_at-other i target permit permits other =
    permits_at-append i permits ((target, permit) ∷ [])
    ∙ rw (other, permits_at) (append-nil (permits_at i permits))

-- The part of a slot that reserving leaves alone.
pub record SameCore (s t : Slot) : Type 0 where
  pub same_queue : t.queue ≡ s.queue
  pub same_closed : t.closed ≡ s.closed

relieved-SameCore : (now : ℕ) (s : Slot) → SameCore s (relieved now s)
unfolding relieved count_pressure
relieved-SameCore now s = record { same_queue = ground arith; same_closed = ground arith }

pressured-SameCore : (now : ℕ) (s : Slot) → SameCore s (pressured now s)
unfolding pressured count_pressure
pressured-SameCore now s = record { same_queue = ground arith; same_closed = ground arith }

pub answered-SameCore :
    (now : ℕ) (pass : OnFull) (answer : Result Full Permit) (s : Slot)
    → SameCore s (answered now pass answer s).0
unfolding answered after_reserving overflowed reserved_cleanly
answered-SameCore now pass (ok permit) s =
    let r = relieved-SameCore now s in
    record {
      same_queue = ground (arith, r.same_queue);
      same_closed = ground (arith, r.same_closed);
    }
answered-SameCore now pass (err too_large) s = record { same_queue = refl; same_closed = refl }
answered-SameCore now backpressure (err items_full) s = pressured-SameCore now s
answered-SameCore now backpressure (err bytes_full) s = pressured-SameCore now s
answered-SameCore now drop_oldest (err items_full) s = record {
  same_queue = refl;
  same_closed = refl;
}
answered-SameCore now drop_oldest (err bytes_full) s = record {
  same_queue = refl;
  same_closed = refl;
}

pub cancel_each-at :
    (i : ℕ) (permits : Permits) (slots : SlotMap)
    → (cancel_each permits slots i).queue ≡ cancel_list (permits_at i permits) (slots i).queue
unfolding cancel_each permits_at cancel_list
cancel_each-at i [] slots = refl
cancel_each-at i ((target, permit) ∷ permits) slots =
    let slot = slots target.slot in
    let rest =
      cancel_each-at i permits
        (set_slot target.slot (with_queue (cancel permit slot.queue) slot) slots) in
    elim (Bool-cases (i == target.slot)) [
      | inl same ↦
          let e = (==_iff i target.slot).0 same in
          rest
          ∙ rw (same, permits_at, cancel_list)
              (ap (λ n. cancel_list (permits_at i permits) (cancel permit (slots n).queue)) (sym e))
      | inr other ↦ rest ∙ rw (other, permits_at) refl
    ]

cancel-grant :
    (base : LeaseQueue Envelope) (size : ℕ)
    → Healthy base
    → size < word
    → cancel (grant base size 0).1 (grant base size 0).0 ≡ base
unfolding cancel grant drop_permit wrapping_add wrapping_sub
cancel-grant base size healthy h =
    let items : ((base.reserved_items + 1) % 2 ^ 64 + (2 ^ 64 - 1)) % 2 ^ 64 ≡ base.reserved_items =
      omega (arith, healthy.items_held) in
    let bytes : ((base.reserved_bytes + size) % 2 ^ 64 + (2 ^ 64 - size)) % 2 ^ 64
        ≡ base.reserved_bytes =
      omega (arith, healthy.bytes_held, h) in
    rw ((==_iff base.reservations base.reservations).1 refl, items, bytes) refl

-- A permit that no eviction paid for goes back without a trace.
pub cancel-taken :
    (base q : LeaseQueue Envelope) (size : ℕ) (permit : Permit)
    → Healthy base
    → base.inner.cfg.on_full ≡ backpressure
    → try_reserve base size ≡ some (q, ok permit)
    → cancel permit q ≡ base
unfolding try_reserve
cancel-taken base q size permit healthy mode h =
    elim (Bool-cases (ltb base.inner.cfg.capacity_bytes size)) [
      | inl large ↦ absurd (ground (arith, h, large))
      | inr fits ↦
          elim (room-cases base.inner (reserved_of base) (length base.inner.entries)
            base.inner.bytes size) [
              | inl has ↦
                  let answer : try_reserve base size
                      ≡ some ((grant base size 0).0, ok (grant base size 0).1) =
                    rw (fits, has, try_reserve) refl in
                  let same = some-cancel answer h in
                  let below : size < word = ground (arith, fits, healthy.limits.bytes_limit) in
                  subst (λ (z : LeaseQueue Envelope × Result Full Permit). cancel_ok z ≡ base) same
                    (cancel-grant base size healthy below)
              | inr (full, lacks) ↦
                  let answer : try_reserve base size ≡ some (base, err full) =
                    simp (fits, lacks, mode, try_reserve) in
                  absurd (cc (answer, h))
            ]
    ]
  where
    cancel_ok : LeaseQueue Envelope × Result Full Permit → LeaseQueue Envelope
    cancel_ok (r, ok p) = cancel p r
    cancel_ok (r, err full) = r

-- A refusal leaves the queue.
pub refusal-same :
    (base q : LeaseQueue Envelope) (size : ℕ) (full : Full)
    → Healthy base
    → try_reserve base size ≡ some (q, err full)
    → q ≡ base
refusal-same base q size full healthy h =
    (subst (Reserves base size) h
      (try_reserve-Reserves base size healthy.coherent healthy.fits healthy.limits)).0

-- A healthy queue answers.
pub answers :
    (base : LeaseQueue Envelope) (size : ℕ)
    → Healthy base
    → (r : LeaseQueue Envelope × Result Full Permit) × (try_reserve base size ≡ some r)
answers base size healthy =
    go (try_reserve base size)
      (try_reserve-Reserves base size healthy.coherent healthy.fits healthy.limits)
  where
    go :
        (x : Option (LeaseQueue Envelope × Result Full Permit))
        → Reserves base size x
        → (r : LeaseQueue Envelope × Result Full Permit) × (x ≡ some r)
    go none h = absurd h
    go (some r) h = (r, refl)
