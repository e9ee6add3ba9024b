-- ===== src/Admission/Passes.antt =====
-- The two passes of `reserve` of crates/tgin-core/src/admission.rs, on healthy queues of open slots.
use tgin.Prelude.{
  ℕ, ◌≡◌, refl, sym, ap, subst, ◌∙◌, true, false, Option, none, some, List, [], ◌∷◌, ◌++◌, ◌==◌,
  ==_iff, if◌then◌else◌, arith, Bool-cases, inl, inr, ◌⊎◌, Result, ok, err,
}
use tgin.Core.{Envelope, backpressured}
use tgin.Queue.Types.{
  LeaseQueue, Permit, OnFull, backpressure, drop_oldest, Full, items_full, bytes_full, too_large,
}
use tgin.Queue.Ops.{try_reserve}
use tgin.Admission.Slots.{Slot, Target, set_slot, with_queue}
use tgin.Admission.Reserving.{
  SlotMap, Permits, Attempt, done, reserved, retired, Answer, took, skipped, refused, asked,
  answered, cancel_each, reserve_each,
}
use tgin.Admission.Seen.{
  Healthy, Seen, untouched, taken, passed, Fresh, visit, permits_at, permits_at-same,
  permits_at-other, answered-SameCore, cancel_list, cancel_each-at, cancel-taken, refusal-same,
  answers,
}

recast :
    {size : ℕ} {base : LeaseQueue Envelope} {mode mode' : Option OnFull} {ps ps' : List Permit}
    {q q' : LeaseQueue Envelope}
    → mode' ≡ mode
    → ps' ≡ ps
    → q' ≡ q
    → Seen size base mode ps q
    → Seen size base mode' ps' q'
recast {size} {base} {mode} {mode'} {ps} {ps'} {q} {q'} e f g s =
    subst (λ m. Seen size base m ps' q') (sym e)
      (subst (λ l. Seen size base mode l q') (sym f)
        (subst (λ r. Seen size base mode ps r) (sym g) s))

Seen-none :
    {size : ℕ} {base q : LeaseQueue Envelope} {mode : Option OnFull} {ps : List Permit}
    → Seen size base mode ps q
    → mode ≡ none
    → (ps ≡ []) × (q ≡ base)
Seen-none untouched e = (refl, refl)
Seen-none (taken h) e = absurd (cc e)
Seen-none (passed full h w) e = absurd (cc e)

-- Giving the permits back restores a queue that nothing was evicted from.
undo :
    {size : ℕ} {base q : LeaseQueue Envelope} {mode : Option OnFull} {ps : List Permit}
    → Seen size base mode ps q
    → Healthy base
    → (mode ≡ none) ⊎ (base.inner.cfg.on_full ≡ backpressure)
    → cancel_list ps q ≡ base
unfolding cancel_list
undo untouched healthy m = refl
undo (taken h) healthy (inl e) = absurd (cc e)
undo {size} {base} (taken {pass} {q} {permit} h) healthy (inr e) =
    cancel-taken base q size permit healthy e h
undo {size} {base} (passed {pass} {q} full h w) healthy m = refusal-same base q size full healthy h

-- What an answer means for the slot.
abbrev Fate : ℕ → OnFull → LeaseQueue Envelope → Answer → Slot → Type 0
Fate size pass q (took permit) after = Seen size q (some pass) (permit ∷ []) after.queue
Fate size pass q skipped after = Seen size q (some pass) [] after.queue
Fate size pass q refused after = (pass ≡ backpressure) × (after.queue ≡ q)

answered-Fate :
    (size now : ℕ) (pass : OnFull) (base q : LeaseQueue Envelope) (answer : Result Full Permit)
    (slot : Slot)
    → Healthy base
    → slot.queue ≡ q
    → try_reserve base size ≡ some (q, answer)
    → Fate size pass base (answered now pass answer slot).1 (answered now pass answer slot).0
unfolding answered
answered-Fate size now pass base q (ok permit) slot healthy e h =
    recast refl refl ((answered-SameCore now pass (ok permit) slot).same_queue ∙ e) (taken h)
answered-Fate size now pass base q (err too_large) slot healthy e h =
    recast refl refl e (passed too_large h (inl refl))
answered-Fate size now backpressure base q (err items_full) slot healthy e h = (
  refl,
  (answered-SameCore now backpressure (err items_full) slot).same_queue
      ∙ e
      ∙ refusal-same base q size items_full healthy h,
)
answered-Fate size now backpressure base q (err bytes_full) slot healthy e h = (
  refl,
  (answered-SameCore now backpressure (err bytes_full) slot).same_queue
      ∙ e
      ∙ refusal-same base q size bytes_full healthy h,
)
answered-Fate size now drop_oldest base q (err items_full) slot healthy e h =
    recast refl refl ((answered-SameCore now drop_oldest (err items_full) slot).same_queue ∙ e)
      (passed items_full h (inr refl))
answered-Fate size now drop_oldest base q (err bytes_full) slot healthy e h =
    recast refl refl ((answered-SameCore now drop_oldest (err bytes_full) slot).same_queue ∙ e)
      (passed bytes_full h (inr refl))

-- The queues of the targets of the backpressure pass have that mode themselves: no reload changed
-- it since the state was loaded.
abbrev pub Agree : SlotMap → OnFull → List Target → Type 0
Agree base pass [] = Unit
Agree base pass (target ∷ targets) =
    (pass ≡ backpressure → (base target.slot).queue.inner.cfg.on_full ≡ backpressure)
    × Agree base pass targets

module _ (size now : ℕ) (base : SlotMap) (healthy : (i : ℕ) → Healthy (base i).queue)
    (pass : OnFull) where
  -- Where the slots stand within a pass.
  pub record Standing (modes : ℕ → Option OnFull) (permits : Permits) (slots : SlotMap)
      : Type 0 where
    pub seen : (i : ℕ) → Seen size (base i).queue (modes i) (permits_at i permits) (slots i).queue
    pub ajar : (i : ℕ) → (slots i).closed ≡ false
    pub restorable :
        pass ≡ backpressure
        → (i : ℕ) → (modes i ≡ none) ⊎ ((base i).queue.inner.cfg.on_full ≡ backpressure)

  abbrev pub Restored : SlotMap → Type 0
  Restored slots = (i : ℕ) → (slots i).queue ≡ (base i).queue

  abbrev pub PassOutcome : (ℕ → Option OnFull) → Option (SlotMap × Attempt) → Type 0
  PassOutcome modes none = ⊥
  PassOutcome modes (some (after, reserved permits)) = Standing modes permits after
  PassOutcome modes (some (after, done admit)) =
      (admit ≡ backpressured) × (pass ≡ backpressure) × Restored after
  PassOutcome modes (some (after, retired)) = ⊥

  abbrev visited : ℕ → (ℕ → Option OnFull) → ℕ → Option OnFull
  visited n modes i = if i == n then some pass else modes i

  -- A target was visited, and stands at `slot` now.
  visit-Standing :
      (target : Target) (slot : Slot) (modes : ℕ → Option OnFull) (permits after : Permits)
      (slots : SlotMap)
      → Standing modes permits slots
      → (pass ≡ backpressure → (base target.slot).queue.inner.cfg.on_full ≡ backpressure)
      → slot.closed ≡ false
      → ((i : ℕ) → (i == target.slot) ≡ false → permits_at i after ≡ permits_at i permits)
      → Seen size (base target.slot).queue (some pass) (permits_at target.slot after) slot.queue
      → Standing (visited target.slot modes) after (set_slot target.slot slot slots)
  visit-Standing target slot modes permits after slots s agree ajar others here = record {
    seen = λ i. elim (Bool-cases (i == target.slot)) [
      | inl same ↦
          subst
            (λ j.
              Seen size (base j).queue (visited target.slot modes j) (permits_at j after)
                (set_slot target.slot slot slots j).queue)
            (sym ((==_iff i target.slot).0 same))
            (recast (ground (arith, self)) refl (ground (arith, self)) here)
      | inr other ↦
          recast (ground (arith, other)) (others i other) (ground (arith, other)) (s.seen i)
    ];
    ajar = λ i. ground (arith, ajar, s.ajar i);
    restorable = λ e i. elim (Bool-cases (i == target.slot)) [
      | inl same ↦ inr (
          subst (λ j. (base j).queue.inner.cfg.on_full ≡ backpressure)
            (sym ((==_iff i target.slot).0 same)) (agree e))
      | inr other ↦ elim (s.restorable e i) [
        | inl free ↦ inl (ground (arith, other, free))
        | inr mode ↦ inr mode
      ]
    ];
  }
    where
      self : (target.slot == target.slot) ≡ true
      self = (==_iff target.slot target.slot).1 refl

  cancel_each-Restored :
      (modes : ℕ → Option OnFull) (permits : Permits) (slots : SlotMap)
      → pass ≡ backpressure
      → Standing modes permits slots
      → Restored (cancel_each permits slots)
  cancel_each-Restored modes permits slots e s i =
      cancel_each-at i permits slots ∙ undo (s.seen i) (healthy i) (s.restorable e i)

  asked-Fate :
      (base : LeaseQueue Envelope) (slot : Slot)
      → Healthy base
      → slot.queue ≡ base
      → (after : Slot) × (answer : Answer) × (asked size now pass slot ≡ some (after, answer))
        × (after.closed ≡ slot.closed)
        × Fate size pass base answer after
  unfolding asked
  asked-Fate base slot healthy e =
      let ((q, answer), h) = answers base size healthy in
      let here : try_reserve slot.queue size ≡ some (q, answer) =
        ap (λ q. try_reserve q size) e ∙ h in
      (
        (answered now pass answer (with_queue q slot)).0,
        (answered now pass answer (with_queue q slot)).1,
        rw (here, asked) refl,
        (answered-SameCore now pass answer (with_queue q slot)).same_closed,
        answered-Fate size now pass base q answer (with_queue q slot) healthy refl h,
      )

  refused-Standing :
      (target : Target) (slot : Slot) (modes : ℕ → Option OnFull) (permits : Permits)
      (slots : SlotMap)
      → Standing modes permits slots
      → modes target.slot ≡ none
      → slot.closed ≡ false
      → slot.queue ≡ (base target.slot).queue
      → Standing modes permits (set_slot target.slot slot slots)
  refused-Standing target slot modes permits slots s free shut same = record {
    seen = λ i. recast refl refl (queue_at i) (s.seen i);
    ajar = λ i. ground (arith, shut, s.ajar i);
    restorable = s.restorable;
  }
    where
      queue_at : (i : ℕ) → (set_slot target.slot slot slots i).queue ≡ (slots i).queue
      queue_at i = elim (Bool-cases (i == target.slot)) [
        | inl here ↦
            let e = (==_iff i target.slot).0 here in
            ground (arith, here)
            ∙ same
            ∙ sym (Seen-none (s.seen target.slot) free).1
            ∙ ap (λ n. (slots n).queue) (sym e)
        | inr other ↦ ground (arith, other)
      ]

  step-outcome :
      (target : Target) (targets : List Target) (permits : Permits) (slots : SlotMap)
      (modes : ℕ → Option OnFull)
      → modes target.slot ≡ none
      → (pass ≡ backpressure → (base target.slot).queue.inner.cfg.on_full ≡ backpressure)
      → Standing modes permits slots
      → ((more : Permits) (next : SlotMap)
          → Standing (visited target.slot modes) more next
          → PassOutcome
              (visit pass targets (visited target.slot modes))
              (reserve_each size now pass targets more next))
      → (after : Slot) (answer : Answer)
      → asked size now pass (slots target.slot) ≡ some (after, answer)
      → after.closed ≡ false
      → Fate size pass (base target.slot).queue answer after
      → PassOutcome
          (visit pass (target ∷ targets) modes)
          (reserve_each size now pass (target ∷ targets) permits slots)
  unfolding reserve_each visit
  step-outcome target targets permits slots modes free agree s rest after (took permit) h shut
        fate =
      let more = permits ++ (target, permit) ∷ [] in
      rw (s.ajar target.slot, h, reserve_each)
        (rest more (set_slot target.slot after slots) (
          visit-Standing target after modes permits more slots s agree shut
            (λ i other. permits_at-other i target permit permits other)
            (recast refl
              (permits_at-same target permit permits
                ∙ ap (λ l. l ++ permit ∷ []) (Seen-none (s.seen target.slot) free).0)
              refl fate)))
  step-outcome target targets permits slots modes free agree s rest after skipped h shut fate =
      rw (s.ajar target.slot, h, reserve_each)
        (rest permits (set_slot target.slot after slots) (
          visit-Standing target after modes permits permits slots s agree shut (λ i e. refl)
            (recast refl (Seen-none (s.seen target.slot) free).0 refl fate)))
  step-outcome target targets permits slots modes free agree s rest after refused h shut (e, same) =
      rw (s.ajar target.slot, h, reserve_each)
        (
          refl,
          e,
          cancel_each-Restored modes permits (set_slot target.slot after slots) e
              (refused-Standing target after modes permits slots s free shut same),
        )

  pub reserve_each-outcome :
      (targets : List Target) (permits : Permits) (slots : SlotMap) (modes : ℕ → Option OnFull)
      → Fresh pass targets modes
      → Agree base pass targets
      → Standing modes permits slots
      → PassOutcome (visit pass targets modes) (reserve_each size now pass targets permits slots)
  unfolding reserve_each visit
  reserve_each-outcome [] permits slots modes fresh agree s = s
  reserve_each-outcome (target ∷ targets) permits slots modes (free, fresh) (mode, agree) s =
      let same = (Seen-none (s.seen target.slot) free).1 in
      let (after, answer, h, closed, fate) =
        asked-Fate (base target.slot).queue (slots target.slot) (healthy target.slot) same in
      step-outcome target targets permits slots modes free mode s
        (λ more next standing.
          reserve_each-outcome targets more next (visited target.slot modes) fresh agree standing)
        after answer h (closed ∙ s.ajar target.slot) fate
