-- ===== src/Admission/Reserving.antt =====
-- `Engine::admit_with`, `reserve` and `commit_reserved` of crates/tgin-core/src/admission.rs, as one
-- caller runs them.
use tgin.Prelude.{
  ℕ, ◌+◌, Bool, true, false, Option, none, some, List, [], ◌∷◌, ◌++◌, length, get_elem?, ltb, ◌==◌,
  if◌then◌else◌, Result, ok, err,
}
use tgin.Prelude.Int.{ℤ}
use tgin.Core.{
  SourceId, ConsumerId, Facts, Envelope, Admit, admitted, backpressured, unroutable, ordering_key,
}
use tgin.Rules.Table.{Matchers}
use tgin.Rules.Route.{MatchScratch, Routed, route}
use tgin.Queue.Types.{Permit, OnFull, backpressure, drop_oldest, ForeignPermit, Full, too_large}
use tgin.Queue.Ops.{try_reserve, cancel, commit}
use tgin.Admission.Slots.{
  Slot, Target, EngineState, Engine, set_slot, pressured, relieved, overflowed, reserved_cleanly,
  drain_late, with_queue, source_of, count_unmatched, end_unmatched,
}

abbrev pub SlotMap : Type 0
SlotMap = ℕ → Slot

abbrev pub Permits : Type 0
Permits = List (Target × Permit)

-- `Attempt`; the instant of `Reserved` is that of its attempt.
pub data Attempt : Type 0 where
  done : Admit → Attempt
  reserved : Permits → Attempt
  retired : Attempt

-- `cancel`
unfoldable pub cancel_each : Permits → SlotMap → SlotMap
cancel_each [] slots = slots
cancel_each ((target, permit) ∷ permits) slots =
    let slot = slots target.slot in
    cancel_each permits (set_slot target.slot (with_queue (cancel permit slot.queue) slot) slots)

abbrev pub is_backpressure : OnFull → Bool
is_backpressure backpressure = true
is_backpressure drop_oldest = false

abbrev pub same_mode : OnFull → OnFull → Bool
same_mode backpressure o = is_backpressure o
same_mode drop_oldest o = if is_backpressure o then false else true

-- The slot after room was reserved.
unfoldable pub after_reserving : ℕ → Permit → Slot → Slot
unfolding relieved overflowed reserved_cleanly
after_reserving now permit slot =
    let s = relieved now slot in
    if ltb 0 permit.evicted then overflowed permit.evicted s else reserved_cleanly s

-- What `try_reserve` answered goes into the slot; a refusal may end the attempt.
pub data Answer : Type 0 where
  took : Permit → Answer
  skipped : Answer
  refused : Answer

unfoldable pub answered : ℕ → OnFull → Result Full Permit → Slot → Slot × Answer
unfolding after_reserving pressured overflowed
answered now pass (ok permit) slot = (after_reserving now permit slot, took permit)
answered now pass (err too_large) slot = (record slot { oversized = slot.oversized + 1 }, skipped)
answered now backpressure (err full) slot = (pressured now slot, refused)
answered now drop_oldest (err full) slot = (overflowed 1 slot, skipped)

-- `try_reserve` on a slot's queue, and what is made of the answer; `none` when the fuel of the
-- model runs out.
unfoldable pub asked : ℕ → ℕ → OnFull → Slot → Option (Slot × Answer)
unfolding answered
asked size now pass slot = elim (try_reserve slot.queue size) [
  | none ↦ none
  | some (q, answer) ↦ some (answered now pass answer (with_queue q slot))
]

-- The targets of one pass.
unfoldable pub reserve_each :
    ℕ → ℕ → OnFull → List Target → Permits → SlotMap → Option (SlotMap × Attempt)
unfolding asked cancel_each
reserve_each size now pass [] permits slots = some (slots, reserved permits)
reserve_each size now pass (target ∷ targets) permits slots =
    let slot = slots target.slot in
    if slot.closed
    then some (cancel_each permits slots, retired)
    else elim (asked size now pass slot) [
      | none ↦ none
      | some (after, took permit) ↦
          reserve_each size now pass targets (permits ++ (target, permit) ∷ [])
            (set_slot target.slot after slots)
      | some (after, skipped) ↦
          reserve_each size now pass targets permits (set_slot target.slot after slots)
      | some (after, refused) ↦
          some (cancel_each permits (set_slot target.slot after slots), done backpressured)
    ]

-- The targets of one pass, in the order of the ids.
unfoldable pub targets_of : OnFull → List ConsumerId → List Target → List Target
targets_of pass [] targets = []
targets_of pass (id ∷ ids) targets = elim (get_elem? targets id) [
  | none ↦ targets_of pass ids targets
  | some target ↦
      if same_mode pass target.on_full
      then target ∷ targets_of pass ids targets
      else targets_of pass ids targets
]

-- The second pass, behind the first.
abbrev pub second_pass :
    ℕ → ℕ → List ConsumerId → List Target → Option (SlotMap × Attempt) → Option (SlotMap × Attempt)
second_pass size now ids targets (some (slots, reserved permits)) =
    reserve_each size now drop_oldest (targets_of drop_oldest ids targets) permits slots
second_pass size now ids targets other = other

-- The two passes.
unfoldable pub reserve_passes :
    ℕ → ℕ → List ConsumerId → List Target → SlotMap → Option (SlotMap × Attempt)
unfolding reserve_each targets_of
reserve_passes size now ids targets slots =
    second_pass size now ids targets
      (reserve_each size now backpressure (targets_of backpressure ids targets) [] slots)

-- A permit of another queue comes back, which is counted as a drop. (Dropping it would give its
-- room back to that queue.)
abbrev pub after_commit : Result (ForeignPermit Envelope) ℕ → Slot → Slot
after_commit (ok seq) slot = slot
after_commit (err foreign) slot = record slot { overflow = slot.overflow + 1 }

-- The loop of `commit_reserved`.
unfoldable pub commit_each : Envelope → Permits → SlotMap → SlotMap
unfolding drain_late
commit_each envelope [] slots = slots
commit_each envelope ((target, permit) ∷ permits) slots =
    let slot = slots target.slot in
    let (q, answer) = commit permit envelope envelope.key envelope.update_id slot.queue in
    let stored = after_commit answer (with_queue q slot) in
    commit_each envelope permits
      (set_slot target.slot (if slot.closed then drain_late stored else stored) slots)

-- An update as a source hands it over.
pub record Update : Type 0 where
  pub source : SourceId
  pub update_id : ℤ
  pub payload : List ℕ
  pub facts : Facts

abbrev pub pop : List MatchScratch → MatchScratch × List MatchScratch
pop [] = (record { owner = none; text = none; callback = none }, [])
pop (scratch ∷ rest) = (scratch, rest)

-- `commit_reserved`
unfoldable pub commit_reserved : Update → ℕ → Permits → Engine → Engine
unfolding commit_each ordering_key
commit_reserved update now permits e =
    let envelope : Envelope = record {
      source = update.source;
      update_id = update.update_id;
      update_type = update.facts.update_type;
      key = ordering_key update.facts;
      payload = update.payload;
      received_at = now;
    } in
    record e { slots = commit_each envelope permits e.slots }

-- The engine with the slots that the passes left.
abbrev pub with_slots : Engine → Option (SlotMap × Attempt) → Option (Engine × Attempt)
with_slots e none = none
with_slots e (some (slots, attempt)) = some (record e { slots = slots }, attempt)

-- What `admit_with` does with an attempt; `again` is what a retired target asks for.
unfoldable pub finish :
    Update
    → ℕ
    → (Engine → Option (Engine × Admit))
    → Option (Engine × Attempt)
    → Option (Engine × Admit)
unfolding commit_reserved
finish update now again none = none
finish update now again (some (e, done admit)) = some (e, admit)
finish update now again (some (e, reserved permits)) =
    some (commit_reserved update now permits e, admitted)
finish update now again (some (e, retired)) = again e

module _ (m : Matchers) where
  -- The part of `reserve` behind the routing.
  unfoldable pub reserve_routed :
      EngineState m → Update → ℕ → Routed m → Engine → Option (Engine × Attempt)
  unfolding reserve_passes count_unmatched end_unmatched
  reserve_routed state update now routed e =
      let info = source_of state update.source in
      let after = record e {
        cursors = λ token. if token == state.table.token then routed.cursors else e.cursors token;
        scratch = routed.scratch ∷ (pop e.scratch).1;
      } in
      elim routed.matched [
        | none ↦
            some (record after { unmatched = count_unmatched info e.unmatched }, done unroutable)
        | some rule ↦
            with_slots (record after { unmatched = end_unmatched info e.unmatched })
              (reserve_passes (length update.payload) now routed.out state.targets e.slots)
      ]

  unfoldable pub reserve : EngineState m → Update → ℕ → Engine → Option (Engine × Attempt)
  unfolding reserve_routed
  reserve state update now e =
      elim (route m state.table update.source update.facts (e.cursors state.table.token)
        (pop e.scratch).0) [ none ↦ none | some routed ↦ reserve_routed state update now routed e ]

  -- `current` is the state that `load` finds then, and `later` the instant of the second attempt.
  unfoldable pub admit_with :
      EngineState m → EngineState m → Update → ℕ → ℕ → Engine → Option (Engine × Admit)
  unfolding finish reserve
  admit_with state current update now later e =
      finish update now
        (λ f. finish update later (λ g. some (g, backpressured)) (reserve current update later f))
        (reserve state update now e)
