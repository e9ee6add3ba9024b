-- ===== src/Consumer/Ends.antt =====
-- How a poll of crates/tgin-core/src/consumer/pull.rs ends, over its rounds.
use tgin.Prelude.{
  ℕ, ◌+◌, ◌≤◌, ◌<◌, ◌≡◌, refl, sym, ap, Bool, subst, true, false, Option, none, some, List, [], ◌∷◌,
  is_empty, leb, if◌then◌else◌, arith, Bool-cases, inl, inr, ◌⊎◌,
}
use tgin.Core.{Envelope}
use tgin.Queue.Types.{LeaseQueue, Lease}
use tgin.Consumer.Pull.{
  PollRequest, PullConsumer, drain_hold, update_depth, taken, wait, until_of, hold_of, after_lease,
  poll_round, Round, gave_up, parked, from_leases, or_insert, Wake, changed, woken, cancelled,
  timed_out, Turn, select, after_round, poll_loop,
}

-- When a drain ends a wait: 500 ms after the first round of the poll that leased nothing in it.
abbrev pub drain_end : Option ℕ → ℕ → ℕ
drain_end none now = now + 500_000_000
drain_end (some hold) now = hold

-- At `at`, the deadline of the poll has come or, in a drain, the end of the drain's wait.
abbrev pub TimeUp : ℕ → Option ℕ → ℕ → PullConsumer → ℕ → Type 0
TimeUp deadline hold now c at = (deadline ≤ at) ⊎ ((c.draining ≡ true) × (drain_end hold now ≤ at))

-- Neither has come at `at`.
abbrev pub NotYet : ℕ → Option ℕ → ℕ → PullConsumer → ℕ → Type 0
NotYet deadline hold now c at = (at < deadline) × (c.draining ≡ true → at < drain_end hold now)

abbrev pub IsNotified : Wake → Type 0
IsNotified changed = Unit
IsNotified woken = Unit
IsNotified cancelled = ⊥
IsNotified (timed_out at) = ⊥

module _ (last : ℕ) (req : PollRequest) (deadline : ℕ) where
  -- The consumer that a round without a lease leaves, and what others make of it.
  abbrev pub left : Turn → PullConsumer → PullConsumer
  left turn c = turn.others (record c { queue = (taken last req turn.now c).0 })

  -- How the loop of a poll ends, from the hold of an earlier round and the consumer: the queue that
  -- it leaves, and its answer, if it has ended.
  pub data PollEnds
      : Option ℕ
        → PullConsumer
        → List Turn
        → LeaseQueue Envelope
        → Option (List (List ℕ))
        → Type 0 where
    waits : {hold : Option ℕ} {c : PullConsumer} → PollEnds hold c [] c.queue none
    leases :
        {hold : Option ℕ} {c : PullConsumer} {turn : Turn} {turns : List Turn}
        → is_empty (taken last req turn.now c).1 ≡ false
        → PollEnds hold c
            (turn ∷ turns)
            (taken last req turn.now c).0
            (some (from_leases (taken last req turn.now c).1))
    comes_late :
        {hold : Option ℕ} {c : PullConsumer} {turn : Turn} {turns : List Turn}
        → (taken last req turn.now c).1 ≡ []
        → TimeUp deadline hold turn.now c turn.now
        → PollEnds hold c (turn ∷ turns) (taken last req turn.now c).0 (some [])
    is_cancelled :
        {hold : Option ℕ} {c : PullConsumer} {turn : Turn} {turns : List Turn}
        → (taken last req turn.now c).1 ≡ []
        → NotYet deadline hold turn.now c turn.now
        → turn.wake ≡ cancelled
        → PollEnds hold c (turn ∷ turns) (left turn c).queue (some [])
    times_out :
        {hold : Option ℕ} {c : PullConsumer} {turn : Turn} {turns : List Turn} (at : ℕ)
        → (taken last req turn.now c).1 ≡ []
        → NotYet deadline hold turn.now c turn.now
        → turn.wake ≡ timed_out at
        → TimeUp deadline hold turn.now c at
        → PollEnds hold c (turn ∷ turns) (left turn c).queue (some [])
    waits_on :
        {hold : Option ℕ} {c : PullConsumer} {turn : Turn} {turns : List Turn} (at : ℕ)
        → (taken last req turn.now c).1 ≡ []
        → NotYet deadline hold turn.now c turn.now
        → turn.wake ≡ timed_out at
        → NotYet deadline hold turn.now c at
        → PollEnds hold c (turn ∷ turns) (left turn c).queue none
    looks_again :
        {hold : Option ℕ} {c : PullConsumer} {turn : Turn} {turns : List Turn}
        {q : LeaseQueue Envelope} {answer : Option (List (List ℕ))}
        → (taken last req turn.now c).1 ≡ []
        → NotYet deadline hold turn.now c turn.now
        → IsNotified turn.wake
        → PollEnds
            (if c.draining then some (drain_end hold turn.now) else hold)
            (left turn c)
            turns
            q
            answer
        → PollEnds hold c (turn ∷ turns) q answer

  or_insert-drain_end :
      (hold : Option ℕ) (now : ℕ) → or_insert (now + drain_hold) hold ≡ drain_end hold now
  or_insert-drain_end none now = refl
  or_insert-drain_end (some h) now = refl

  until_of-TimeUp :
      (hold : Option ℕ) (now : ℕ) (c : PullConsumer) (at : ℕ)
      → leb (until_of deadline hold now c) at ≡ true
      → TimeUp deadline hold now c at
  until_of-TimeUp hold now c at h = ground (arith, or_insert-drain_end hold now)

  until_of-NotYet :
      (hold : Option ℕ) (now : ℕ) (c : PullConsumer) (at : ℕ)
      → leb (until_of deadline hold now c) at ≡ false
      → NotYet deadline hold now c at
  until_of-NotYet hold now c at h = (
    ground (arith, or_insert-drain_end hold now),
    λ d. ground (arith, or_insert-drain_end hold now),
  )

  hold_of-eq :
      (hold : Option ℕ) (now : ℕ) (c : PullConsumer)
      → hold_of hold now c ≡ (if c.draining then some (drain_end hold now) else hold)
  hold_of-eq hold now c =
      ap (λ n. if c.draining then some n else hold) (or_insert-drain_end hold now)

  update_depth-queue : (c : PullConsumer) → (update_depth c).queue ≡ c.queue
  unfolding update_depth
  update_depth-queue c = ground arith

  abbrev EndsIn :
      Option ℕ → PullConsumer → List Turn → PullConsumer × Option (List (List ℕ)) → Type 0
  EndsIn hold c turns (after, answer) = PollEnds hold c turns after.queue answer

  abbrev resume :
      Turn → List Turn → PullConsumer × Option ℕ × Round → PullConsumer × Option (List (List ℕ))
  resume turn turns (after, kept, round) =
      after_round turn after round (poll_loop last req deadline kept turns (turn.others after))

  abbrev without : Turn → PullConsumer → PullConsumer
  without turn c = record c { queue = (taken last req turn.now c).0 }

  select-EndsIn :
      (hold : Option ℕ) (turn : Turn) (turns : List Turn) (c : PullConsumer) (wake : Wake)
      (rest : PullConsumer × Option (List (List ℕ)))
      → turn.wake ≡ wake
      → (taken last req turn.now c).1 ≡ []
      → NotYet deadline hold turn.now c turn.now
      → EndsIn
          (if c.draining then some (drain_end hold turn.now) else hold)
          (left turn c)
          turns
          rest
      → EndsIn hold c
          (turn ∷ turns)
          (select (until_of deadline hold turn.now c) wake (left turn c) rest)
  unfolding select
  select-EndsIn hold turn turns c changed rest w nothing early later =
      looks_again nothing early (subst IsNotified (sym w) tt) later
  select-EndsIn hold turn turns c woken rest w nothing early later =
      looks_again nothing early (subst IsNotified (sym w) tt) later
  select-EndsIn hold turn turns c cancelled rest w nothing early later =
      subst (λ q. PollEnds hold c (turn ∷ turns) q (some []))
        (sym (update_depth-queue (left turn c))) (is_cancelled nothing early w)
  select-EndsIn hold turn turns c (timed_out at) rest w nothing early later =
      elim (Bool-cases (leb (until_of deadline hold turn.now c) at)) [
        | inl fires ↦ rw fires (
            subst (λ q. PollEnds hold c (turn ∷ turns) q (some []))
              (sym (update_depth-queue (left turn c)))
              (times_out at nothing early w (until_of-TimeUp hold turn.now c at fires)))
        | inr before ↦
            rw before (waits_on at nothing early w (until_of-NotYet hold turn.now c at before))
      ]

  module _ (hold : Option ℕ) (turn : Turn) (turns : List Turn) (c : PullConsumer) where
    -- What the loop does from the next round on.
    abbrev Later : Type 0
    Later =
        EndsIn (hold_of hold turn.now c) (left turn c) turns
          (poll_loop last req deadline (hold_of hold turn.now c) turns (left turn c))

    parks :
        (late : Bool)
        → leb (until_of deadline hold turn.now c) turn.now ≡ late
        → (taken last req turn.now c).1 ≡ []
        → Later
        → EndsIn hold c (turn ∷ turns) (
            resume turn turns (
              if late then (update_depth (without turn c), hold_of hold turn.now c, gave_up) else (
                without turn c,
                hold_of hold turn.now c,
                parked (until_of deadline hold turn.now c),
              )))
    parks true late nothing later =
        subst (λ q. PollEnds hold c (turn ∷ turns) q (some []))
          (sym (update_depth-queue (without turn c)))
          (comes_late nothing (until_of-TimeUp hold turn.now c turn.now late))
    parks false early nothing later =
        select-EndsIn hold turn turns c turn.wake _ refl nothing
          (until_of-NotYet hold turn.now c turn.now early)
          (subst
            (λ kept.
              EndsIn kept (left turn c) turns
                (poll_loop last req deadline (hold_of hold turn.now c) turns (left turn c)))
            (hold_of-eq hold turn.now c) later)

    after_lease-EndsIn :
        (items : List (Lease Envelope))
        → (taken last req turn.now c).1 ≡ items
        → Later
        → EndsIn hold c (turn ∷ turns) (
            resume turn turns
              (after_lease deadline hold turn.now c ((taken last req turn.now c).0, items)))
    unfolding wait
    after_lease-EndsIn [] nothing later = parks _ refl nothing later
    after_lease-EndsIn (first ∷ more) got later =
        subst (λ q. PollEnds hold c (turn ∷ turns) q (some (from_leases (first ∷ more))))
          (sym (update_depth-queue (without turn c)))
          (subst
            (λ ls.
              PollEnds hold c (turn ∷ turns) (taken last req turn.now c).0 (some (from_leases ls)))
            got (leases (ap is_empty got)))

  -- For every sequence of rounds, with how each wait behind one ends and what other calls do in
  -- it: a round that leases anything ends the poll, which answers what it leased. A round that
  -- leases nothing ends the poll with an empty answer if the deadline has come or, in a drain,
  -- the end of its wait, which is 500 ms after the first round that leased nothing in a drain.
  -- Else the poll waits: a cancellation ends it with an empty answer; the timer does so too, at
  -- an instant when the deadline or, in a drain, the end of its wait has come, and at no earlier
  -- one; and a notification leads to the next round. The queue is the one that the leases and
  -- the other calls left.
  pub poll_loop-PollEnds :
      (hold : Option ℕ) (turns : List Turn) (c : PullConsumer)
      → PollEnds hold c turns
          (poll_loop last req deadline hold turns c).0.queue
          (poll_loop last req deadline hold turns c).1
  unfolding poll_loop poll_round
  poll_loop-PollEnds hold [] c = waits
  poll_loop-PollEnds hold (turn ∷ turns) c =
      after_lease-EndsIn hold turn turns c (taken last req turn.now c).1 refl
        (poll_loop-PollEnds (hold_of hold turn.now c) turns (left turn c))
