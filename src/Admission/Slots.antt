-- ===== src/Admission/Slots.antt =====
-- `Slot`, `Target`, `SourceInfo` and `EngineState` of crates/tgin-core/src/engine.rs, as admission
-- uses them. Slots outlive generations, so a target names its slot by number. Logs and the depth
-- gauges are left out.
use tgin.Prelude.{
  ℕ, ◌+◌, ◌-◌, Bool, true, false, Option, none, some, List, String, length, leb, get_elem?, ◌==◌,
  if◌then◌else◌,
}
use tgin.Prelude.Words.{u64_max, saturating_add}
use tgin.Time.{saturating_duration_since}
use tgin.Core.{SourceId, Envelope}
use tgin.Rules.Table.{Matchers, RouteTable}
use tgin.Rules.Route.{MatchScratch}
use tgin.Queue.Types.{LeaseQueue, OnFull}
use tgin.Queue.Returns.{drain_all}

-- `overflow`, `oversized` and `reload` count the drops of each reason, `backpressure` the
-- nanoseconds under backpressure. `epoch` is an instant.
pub record Slot : Type 0 where
  pub queue : LeaseQueue Envelope
  pub closed : Bool
  pub pressured_since : ℕ
  pub epoch : ℕ
  pub overflowing : Bool
  pub backpressure : ℕ
  pub overflow : ℕ
  pub oversized : ℕ
  pub reload : ℕ

pub record Target : Type 0 where
  pub slot : ℕ
  pub on_full : OnFull
  pub capacity_bytes : ℕ

pub record SourceInfo : Type 0 where
  pub id : SourceId
  pub name : String
  pub username : Option String

-- What a source keeps across generations: the count of updates that match no rule, and whether a
-- run of them goes on.
pub record Unmatched : Type 0 where
  pub count : ℕ
  pub running : Bool

pub record EngineState (m : Matchers) : Type 0 where
  pub table : RouteTable m
  pub targets : List Target
  pub sources : List (Option SourceInfo)

-- What admission changes. The cursors are those of every table, by its token; `scratch` is a
-- stack, its top first.
pub record Engine : Type 0 where
  pub slots : ℕ → Slot
  pub unmatched : SourceId → Unmatched
  pub cursors : ℕ → ℕ → ℕ
  pub scratch : List MatchScratch

abbrev pub set_slot : ℕ → Slot → (ℕ → Slot) → ℕ → Slot
set_slot n slot slots i = if i == n then slot else slots i

-- `Slot::mark`
unfoldable pub mark : ℕ → ℕ → ℕ
mark now epoch =
    let nanos = saturating_duration_since now epoch in
    saturating_add (if leb nanos u64_max then nanos else u64_max - 1) 1

-- `Slot::count_pressure`
unfoldable pub count_pressure : ℕ → ℕ → Slot → Slot
count_pressure mark now slot = if mark == 0 then slot else record slot {
  backpressure = slot.backpressure + saturating_duration_since now (slot.epoch + (mark - 1));
}

unfoldable pub pressured : ℕ → Slot → Slot
unfolding mark count_pressure
pressured now slot =
    count_pressure slot.pressured_since now (record slot { pressured_since = mark now slot.epoch })

unfoldable pub relieved : ℕ → Slot → Slot
unfolding count_pressure
relieved now slot =
    if slot.pressured_since == 0
    then slot
    else count_pressure slot.pressured_since now (record slot { pressured_since = 0 })

unfoldable pub overflowed : ℕ → Slot → Slot
overflowed n slot = record slot { overflow = slot.overflow + n; overflowing = true }

unfoldable pub reserved_cleanly : Slot → Slot
reserved_cleanly slot = record slot { overflowing = false }

-- `Slot::drain_late`
unfoldable pub drain_late : Slot → Slot
unfolding drain_all
drain_late slot =
    let (q, dropped) = drain_all slot.queue in
    record slot { queue = q; reload = slot.reload + length dropped }

abbrev pub with_queue : LeaseQueue Envelope → Slot → Slot
with_queue q slot = record slot { queue = q }

-- `EngineState::source`
abbrev pub source_of : {m : Matchers} → EngineState m → SourceId → Option SourceInfo
source_of state id = elim (get_elem? state.sources id) [ none ↦ none | some info ↦ info ]

abbrev set_unmatched :
    Option SourceInfo → (Unmatched → Unmatched) → (SourceId → Unmatched) → SourceId → Unmatched
set_unmatched none f counts = counts
set_unmatched (some info) f counts = λ i. if i == info.id then f (counts i) else counts i

-- `SourceInfo::unmatched` and `SourceInfo::matched`, of a source that may be gone.
unfoldable pub count_unmatched : Option SourceInfo → (SourceId → Unmatched) → SourceId → Unmatched
count_unmatched info = set_unmatched info (λ u. record { count = u.count + 1; running = true })

unfoldable pub end_unmatched : Option SourceInfo → (SourceId → Unmatched) → SourceId → Unmatched
end_unmatched info = set_unmatched info (λ u. record { count = u.count; running = false })
