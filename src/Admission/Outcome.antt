-- ===== src/Admission/Outcome.antt =====
-- What `admit_with` of crates/tgin-core/src/admission.rs does to every queue.
use tgin.Prelude.{
  ℕ, ◌≡◌, refl, sym, ap, subst, ◌∙◌, false, Option, none, some, List, [], ◌∷◌, length, ◌==◌, ==_iff,
  if◌then◌else◌, arith, Bool-cases, inl, inr, ◌⊎◌, Result, ok, err,
}
use tgin.Core.{Envelope, Admit, admitted, backpressured, unroutable, ordering_key, ConsumerId}
use tgin.Rules.Table.{Matchers}
use tgin.Rules.Route.{Routed, route}
use tgin.Queue.Types.{
  LeaseQueue, Permit, ForeignPermit, OnFull, backpressure, drop_oldest, Full, too_large,
}
use tgin.Queue.Ops.{try_reserve, commit}
use tgin.Queue.Reserve.Spec.{Granted, Reserves, try_reserve-Reserves}
use tgin.Admission.Slots.{
  Slot, Target, EngineState, Engine, set_slot, with_queue, drain_late, source_of, end_unmatched,
}
use tgin.Admission.Reserving.{
  SlotMap, Permits, Attempt, done, reserved, retired, Update, pop, after_commit, commit_each,
  commit_reserved, targets_of, second_pass, reserve_passes, with_slots, reserve_routed, reserve,
  finish, admit_with,
}
use tgin.Admission.Seen.{
  Healthy, Seen, untouched, taken, passed, Fresh, visit, permits_at, refusal-same,
}
use tgin.Admission.Passes.{Agree, Standing, PassOutcome, Restored, reserve_each-outcome}

unfoldable pub commit_list : Envelope → List Permit → LeaseQueue Envelope → LeaseQueue Envelope
commit_list envelope [] q = q
commit_list envelope (permit ∷ permits) q =
    commit_list envelope permits (commit permit envelope envelope.key envelope.update_id q).0

after_commit-core :
    (answer : Result (ForeignPermit Envelope) ℕ) (slot : Slot)
    → ((after_commit answer slot).queue ≡ slot.queue)
      × ((after_commit answer slot).closed ≡ slot.closed)
after_commit-core (ok seq) slot = (refl, refl)
after_commit-core (err foreign) slot = (refl, refl)

commit_each-at :
    (envelope : Envelope) (i : ℕ) (permits : Permits) (slots : SlotMap)
    → ((j : ℕ) → (slots j).closed ≡ false)
    → (commit_each envelope permits slots i).queue
      ≡ commit_list envelope (permits_at i permits) (slots i).queue
unfolding commit_each permits_at commit_list
commit_each-at envelope i [] slots shut = refl
commit_each-at envelope i ((target, permit) ∷ permits) slots shut =
    let slot = slots target.slot in
    let (q, answer) = commit permit envelope envelope.key envelope.update_id slot.queue in
    let stored = after_commit answer (with_queue q slot) in
    let next = set_slot target.slot stored slots in
    let core = after_commit-core answer (with_queue q slot) in
    let rest =
      commit_each-at envelope i permits next
        (λ j. ground (arith, core.1, shut j, shut target.slot)) in
    let step : (commit_each envelope ((target, permit) ∷ permits) slots i).queue
        ≡ (commit_each envelope permits next i).queue =
      ap
        (λ b.
          (commit_each envelope permits
            (set_slot target.slot (if b then drain_late stored else stored) slots) i).queue)
        (shut target.slot) in
    elim (Bool-cases (i == target.slot)) [
      | inl same ↦
          let e = (==_iff i target.slot).0 same in
          let here : (next i).queue
              ≡ (commit permit envelope envelope.key envelope.update_id (slots i).queue).0 =
            ground (arith, same)
            ∙ core.0
            ∙ ap (λ n. (commit permit envelope envelope.key envelope.update_id (slots n).queue).0)
                (sym e) in
          let split : permits_at i ((target, permit) ∷ permits) ≡ permit ∷ permits_at i permits =
            rw (same, permits_at) refl in
          step
          ∙ rest
          ∙ ap (commit_list envelope (permits_at i permits)) here
          ∙ sym (ap (λ l. commit_list envelope l (slots i).queue) split)
      | inr other ↦
          let here : (next i).queue ≡ (slots i).queue = ground (arith, other) in
          let split : permits_at i ((target, permit) ∷ permits) ≡ permits_at i permits =
            rw (other, permits_at) refl in
          step
          ∙ rest
          ∙ ap (commit_list envelope (permits_at i permits)) here
          ∙ sym (ap (λ l. commit_list envelope l (slots i).queue) split)
    ]

-- What became of a queue, by the pass of its target: no target; the update stored; or none, which
-- a target of the backpressure pass has only for an update that is too large for it.
pub data Admitted (size : ℕ) (envelope : Envelope) (base : LeaseQueue Envelope)
    : Option OnFull → LeaseQueue Envelope → Type 0 where
  left : Admitted size envelope base none base
  stored :
      {pass : OnFull} (q : LeaseQueue Envelope) (permit : Permit) (seq : ℕ)
      {after : LeaseQueue Envelope}
      → try_reserve base size ≡ some (q, ok permit)
      → commit permit envelope envelope.key envelope.update_id q ≡ (after, ok seq)
      → Admitted size envelope base (some pass) after
  missed :
      {pass : OnFull} (full : Full)
      → try_reserve base size ≡ some (base, err full)
      → (full ≡ too_large) ⊎ (pass ≡ drop_oldest)
      → Admitted size envelope base (some pass) base

-- A permit is its own queue's, so committing it stores the update.
commit-own :
    (size : ℕ) (base q : LeaseQueue Envelope) (permit : Permit) (envelope : Envelope)
    → Healthy base
    → try_reserve base size ≡ some (q, ok permit)
    → (commit permit envelope envelope.key envelope.update_id q).1 ≡ ok q.inner.next_seq
unfolding commit
commit-own size base q permit envelope healthy h =
    let granted : Granted base size q permit =
      subst (Reserves base size) h
        (try_reserve-Reserves base size healthy.coherent healthy.fits healthy.limits) in
    let own =
      (==_iff permit.granted_by q.reservations).1 (granted.permit_owner ∙ sym granted.same_owner) in
    rw (own, commit) refl

Seen-Admitted :
    {size : ℕ} {base q : LeaseQueue Envelope} {mode : Option OnFull} {permits : List Permit}
    (envelope : Envelope)
    → Healthy base
    → Seen size base mode permits q
    → Admitted size envelope base mode (commit_list envelope permits q)
unfolding commit_list
Seen-Admitted envelope healthy untouched = left
Seen-Admitted {size} {base} envelope healthy (taken {pass} {q} {permit} h) =
    stored q permit q.inner.next_seq h (
      ap (λ a. ((commit permit envelope envelope.key envelope.update_id q).0, a))
        (commit-own size base q permit envelope healthy h))
Seen-Admitted {size} {base} envelope healthy (passed {pass} {q} full h why) =
    let same = refusal-same base q size full healthy h in
    subst (λ r. Admitted size envelope base (some pass) r) (sym same)
      (missed full (h ∙ ap (λ r. some (r, err full)) same) why)

-- The pass of the target of each slot.
abbrev pub mode_of : List ConsumerId → List Target → ℕ → Option OnFull
mode_of ids targets =
    visit drop_oldest (targets_of drop_oldest ids targets)
      (visit backpressure (targets_of backpressure ids targets) (λ i. none))

-- The targets of the ids have slots of their own.
abbrev pub Apart : List ConsumerId → List Target → Type 0
Apart ids targets =
    Fresh backpressure (targets_of backpressure ids targets) (λ i. none)
    × Fresh drop_oldest (targets_of drop_oldest ids targets)
        (visit backpressure (targets_of backpressure ids targets) (λ i. none))

module _ (size now : ℕ) (base : SlotMap) (healthy : (i : ℕ) → Healthy (base i).queue)
    (shut : (i : ℕ) → (base i).closed ≡ false) where
  -- How both passes go.
  abbrev PassesOutcome : List ConsumerId → List Target → Option (SlotMap × Attempt) → Type 0
  PassesOutcome ids targets none = ⊥
  PassesOutcome ids targets (some (after, reserved permits)) =
      Standing size now base healthy drop_oldest (mode_of ids targets) permits after
  PassesOutcome ids targets (some (after, done admit)) =
      (admit ≡ backpressured) × Restored size now base healthy backpressure after
  PassesOutcome ids targets (some (after, retired)) = ⊥

  all-Agree : (targets : List Target) → Agree base drop_oldest targets
  all-Agree [] = tt
  all-Agree (target ∷ targets) = (λ e. absurd (cc e), all-Agree targets)

  second-outcome :
      (ids : List ConsumerId) (targets : List Target) (x : Option (SlotMap × Attempt))
      → PassOutcome size now base healthy drop_oldest (mode_of ids targets) x
      → PassesOutcome ids targets x
  second-outcome ids targets none h = absurd h
  second-outcome ids targets (some (after, reserved permits)) h = h
  second-outcome ids targets (some (after, done admit)) (a, e, restored) = absurd (cc e)
  second-outcome ids targets (some (after, retired)) h = absurd h

  first-outcome :
      (ids : List ConsumerId) (targets : List Target) (x : Option (SlotMap × Attempt))
      → Fresh drop_oldest
          (targets_of drop_oldest ids targets)
          (visit backpressure (targets_of backpressure ids targets) (λ i. none))
      → PassOutcome size now base healthy backpressure
          (visit backpressure (targets_of backpressure ids targets) (λ i. none))
          x
      → PassesOutcome ids targets (second_pass size now ids targets x)
  first-outcome ids targets none late h = absurd h
  first-outcome ids targets (some (after, reserved permits)) late s =
      let passes = targets_of drop_oldest ids targets in
      second-outcome ids targets _ (
        reserve_each-outcome size now base healthy drop_oldest passes permits after
          (visit backpressure (targets_of backpressure ids targets) (λ i. none)) late
          (all-Agree passes)
          (record { seen = s.seen; ajar = s.ajar; restorable = λ e i. absurd (cc e) }))
  first-outcome ids targets (some (after, done admit)) late (a, e, restored) = (a, restored)
  first-outcome ids targets (some (after, retired)) late h = absurd h

  reserve_passes-outcome :
      (ids : List ConsumerId) (targets : List Target)
      → Apart ids targets
      → Agree base backpressure (targets_of backpressure ids targets)
      → PassesOutcome ids targets (reserve_passes size now ids targets base)
  unfolding reserve_passes permits_at
  reserve_passes-outcome ids targets (early, late) agree = first-outcome ids targets _ late (
      reserve_each-outcome size now base healthy backpressure (targets_of backpressure ids targets)
        [] base (λ i. none) early agree
        (record { seen = λ i. untouched; ajar = shut; restorable = λ e i. inl refl }))

abbrev pub envelope_of : Update → ℕ → Envelope
envelope_of update now = record {
  source = update.source;
  update_id = update.update_id;
  update_type = update.facts.update_type;
  key = ordering_key update.facts;
  payload = update.payload;
  received_at = now;
}

-- How an admission ends: every queue as in `Admitted`, or every queue as it was.
abbrev pub Ends : Update → ℕ → List ConsumerId → List Target → Engine → Engine → Admit → Type 0
Ends update now ids targets e f admitted =
    (i : ℕ)
    → Admitted (length update.payload) (envelope_of update now) (e.slots i).queue
        (mode_of ids targets i) (f.slots i).queue
Ends update now ids targets e f backpressured = (i : ℕ) → (f.slots i).queue ≡ (e.slots i).queue
Ends update now ids targets e f unroutable = ⊥

finish-Ends :
    (update : Update) (now : ℕ) (again : Engine → Option (Engine × Admit)) (ids : List ConsumerId)
    (targets : List Target) (e after : Engine) (healthy : (i : ℕ) → Healthy (e.slots i).queue)
    (shut : (i : ℕ) → (e.slots i).closed ≡ false) (x : Option (SlotMap × Attempt))
    → PassesOutcome (length update.payload) now e.slots healthy shut ids targets x
    → (f : Engine) × (admit : Admit) × (finish update now again (with_slots after x)
        ≡ some (f, admit))
      × Ends update now ids targets e f admit
unfolding finish commit_reserved
finish-Ends update now again ids targets e after healthy shut none h = absurd h
finish-Ends update now again ids targets e after healthy shut (some (slots, reserved permits)) s = (
  commit_reserved update now permits (record after { slots = slots }),
  admitted,
  refl,
  λ i.
      subst
        (Admitted (length update.payload) (envelope_of update now) (e.slots i).queue
          (mode_of ids targets i))
        (sym (commit_each-at (envelope_of update now) i permits slots s.ajar))
        (Seen-Admitted (envelope_of update now) (healthy i) (s.seen i)),
)
finish-Ends update now again ids targets e after healthy shut (some (slots, done admit))
      (same, restored) =
    (
      record after { slots = slots },
      backpressured,
      ap (λ a. some (record after { slots = slots }, a)) same,
      restored,
    )
finish-Ends update now again ids targets e after healthy shut (some (slots, retired)) h = absurd h

module _ (m : Matchers) where
  -- When the routing of an update matched a rule, every queue is healthy and every slot open,
  -- the targets have slots of their own, and no reload changed the mode of a backpressure
  -- target, then admit_with returns, with one of two ends. Either it is admitted: a queue that
  -- is no target is as it was; a target has what commit stores for the permit that try_reserve
  -- granted it, which is its own; and a target without the update is as it was and had refused
  -- it as too large, or is a drop_oldest target that refused it. Or it is backpressured, and
  -- every queue is as it was.
  pub admit_with-Ends :
      (state current : EngineState m) (update : Update) (now later : ℕ) (e : Engine)
      (routed : Routed m) (rule : ℕ)
      → ((i : ℕ) → Healthy (e.slots i).queue)
      → ((i : ℕ) → (e.slots i).closed ≡ false)
      → route m state.table update.source update.facts
          (e.cursors state.table.token)
          (pop e.scratch).0
        ≡ some routed
      → routed.matched ≡ some rule
      → Apart routed.out state.targets
      → Agree e.slots backpressure (targets_of backpressure routed.out state.targets)
      → (f : Engine) × (admit : Admit) × (admit_with m state current update now later e
          ≡ some (f, admit))
        × Ends update now routed.out state.targets e f admit
  unfolding admit_with reserve_routed reserve
  admit_with-Ends state current update now later e routed rule healthy shut h k apart agree =
      let passes =
        reserve_passes-outcome (length update.payload) now e.slots healthy shut routed.out
          state.targets apart agree in
      let after : Engine = record e {
        cursors = λ token. if token == state.table.token then routed.cursors else e.cursors token;
        scratch = routed.scratch ∷ (pop e.scratch).1;
        unmatched = end_unmatched (source_of state update.source) e.unmatched;
      } in
      let reserves : reserve m state update now e
          ≡ with_slots after
              (reserve_passes (length update.payload) now routed.out state.targets e.slots) =
        rw (h, k, reserve) refl in
      let again : Engine → Option (Engine × Admit) = λ f.
        finish update later (λ g. some (g, backpressured)) (reserve m current update later f) in
      let (f, admit, ends, result) =
        finish-Ends update now again routed.out state.targets e after healthy shut _ passes in
      (f, admit, ap (finish update now again) reserves ∙ ends, result)
