-- ===== src/Admission/Tests.antt =====
-- An update for two consumers.
use tgin.Prelude.{ℕ, ◌≡◌, refl, false, some, [], ◌∷◌, ◌==◌, if◌then◌else◌, arith}
use tgin.Prelude.Eq.{string_eq}
use tgin.Prelude.Int.{pos}
use tgin.Core.{Admit}
use tgin.Containers.OrderedMap.{sum}
use tgin.Queue.Types.{QueueConfig, any_order, backpressure, drop_oldest}
use tgin.Queue.Ops.{new}
use tgin.Queue.World.Safety.{new-Sound}
use tgin.Rules.Examples.{whole, table, hello, fresh, routed, routed_is}
use tgin.Admission.Slots.{EngineState, Engine}
use tgin.Admission.Reserving.{Update, admit_with, targets_of}
use tgin.Admission.Seen.{Healthy, visit}
use tgin.Admission.Outcome.{Ends, admit_with-Ends}

-- The first slot has a queue that refuses, every other one that evicts.
abbrev config : ℕ → QueueConfig
config i = record {
  capacity = 2;
  capacity_bytes = 100;
  lease_timeout = 30;
  ordering = any_order;
  on_full = if i == 0 then backpressure else drop_oldest;
}

abbrev engine : Engine
engine = record {
  slots = λ i. record {
    queue = new (config i) i;
    closed = false;
    pressured_since = 0;
    epoch = 0;
    overflowing = false;
    backpressure = 0;
    overflow = 0;
    oversized = 0;
    reload = 0;
  };
  unmatched = λ i. record { count = 0; running = false };
  cursors = λ token node. 0;
  scratch = fresh ∷ [];
}

abbrev state : EngineState whole
state = record {
  table = table;
  targets =
      record { slot = 2; on_full = drop_oldest; capacity_bytes = 100 }
      ∷ record { slot = 0; on_full = backpressure; capacity_bytes = 100 }
      ∷ record { slot = 1; on_full = drop_oldest; capacity_bytes = 100 }
      ∷ [];
  sources = [];
}

abbrev update : Update
update = record { source = 0; update_id = pos 40; payload = 1 ∷ 2 ∷ 3 ∷ []; facts = hello }

engine-Healthy : (i : ℕ) → Healthy (engine.slots i).queue
unfolding new sum
engine-Healthy i = record {
  coherent =
      (new-Sound 2 100 (omega arith) (omega arith) (config i) i
        (record { items_within = omega arith; bytes_within = omega arith })).coherent;
  fits = record { bytes_fit = omega arith; count_fits = omega arith };
  limits = record { items_limit = omega arith; bytes_limit = omega arith };
  items_held = omega arith;
  bytes_held = omega arith;
}

admit_with-Ends_example :
    (f : Engine) × (admit : Admit) × (admit_with whole state state update 5 6 engine
      ≡ some (f, admit))
    × Ends update 5 (1 ∷ 2 ∷ []) state.targets engine f admit
unfolding targets_of visit new
admit_with-Ends_example =
    admit_with-Ends whole state state update 5 6 engine routed 1 engine-Healthy (λ i. refl)
      routed_is refl ((refl, tt), (refl, tt)) ((λ e. refl), tt)
