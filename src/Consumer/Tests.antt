-- ===== src/Consumer/Tests.antt =====
-- Polls of a queue of one update.
use tgin.Prelude.{true, List, ℕ, ◌+◌, ◌^◌, ◌<◌, ◌≡◌, refl, false, none, some, [], ◌∷◌, arith, ok}
use tgin.Prelude.Int.{pos}
use tgin.Prelude.Words.{wrapping_add, saturating_add}
use tgin.Core.{Envelope}
use tgin.Time.{checked_add}
use tgin.Containers.OrderedMap
use tgin.Queue.Types.{LeaseQueue, QueueConfig, Permit, any_order, backpressure}
use tgin.Queue.Inner.{room}
use tgin.Queue.Ops.{new, try_reserve, grant, commit, lease}
use tgin.Queue.Held.{reread_at}
use tgin.Queue.World.{Within, Sound, here, next, reserved, committed, leased}
use tgin.Queue.World.Safety.{Reach-Sound, Sound-Fits}
use tgin.Consumer.Pull.{
  PollRequest, PullConsumer, poll_start, Turn, woken, cancelled, taken, wait, poll_round, select,
  poll_loop,
}
use tgin.Consumer.Polls.{acknowledged, get-poll_start}
use tgin.Consumer.Ends.{PollEnds, poll_loop-PollEnds}

abbrev last : ℕ
last = 2 ^ 63

abbrev config : QueueConfig
config = record {
  capacity = 2;
  capacity_bytes = 100;
  lease_timeout = 30;
  ordering = any_order;
  on_full = backpressure;
}

abbrev envelope : Envelope
envelope = record {
  source = 0;
  update_id = pos 40;
  update_type = "message";
  key = none;
  payload = 1 ∷ 2 ∷ [];
  received_at = 990;
}

abbrev empty : LeaseQueue Envelope
empty = new config 1

abbrev one_reserved : LeaseQueue Envelope
one_reserved = record empty { reserved_items = 1; reserved_bytes = 2 }

abbrev permit : Permit
permit = record { evicted = 0; size = 2; granted_by = 1 }

abbrev one_stored : LeaseQueue Envelope
one_stored = (commit permit envelope none (pos 40) one_reserved).0

abbrev one_leased : LeaseQueue Envelope
one_leased = (lease last "worker" 5 1000 one_stored).0

reserves_one : try_reserve empty 2 ≡ some (one_reserved, ok permit)
unfolding try_reserve new grant room saturating_add wrapping_add
reserves_one = refl

has_seqs : one_reserved.inner.next_seq + 1 < 2 ^ 64
unfolding new
has_seqs = omega arith

config-Within : Within 2 100 config
config-Within = record { items_within = omega arith; bytes_within = omega arith }

leased-Sound : Sound 2 100 one_leased []
leased-Sound = Reach-Sound 2 100 (omega arith) (omega arith) config 1 config-Within (
    next
      (next (next here (reserved 2 reserves_one))
        (committed [] permit [] envelope none (pos 40) has_seqs))
      (leased last "worker" 5 1000))

abbrev request : PollRequest
request = record { instance_of = "worker"; offset = pos 41; limit = 5; timeout = 1000 }

abbrev consumer : PullConsumer
consumer = record {
  queue = one_leased;
  draining = false;
  paused = false;
  gauges = false;
  wakes = 0;
  latencies = [];
  depth = (0, 0, 0);
}

get-poll_start_example :
    OrderedMap.get 0 (poll_start last request 1010 consumer).0.queue.inner.entries
    ≡ reread_at "worker"
        (pos 41)
        (checked_add last 1010 one_leased.inner.cfg.lease_timeout)
        (acknowledged "worker" (pos 41) (OrderedMap.get 0 one_leased.inner.entries))
get-poll_start_example =
    get-poll_start last request 1010 consumer 0 leased-Sound.coherent
      (Sound-Fits 2 100 (omega arith) (omega arith) one_leased [] leased-Sound)

-- A poll of the paused consumer is woken once, and then cancelled.
abbrev paused_consumer : PullConsumer
paused_consumer = record consumer { paused = true }

abbrev two_turns : List Turn
two_turns =
    record { now = 1010; wake = woken; others = λ c. c }
    ∷ record { now = 1500; wake = cancelled; others = λ c. c }
    ∷ []

is_cancelled_there : (poll_loop last request 2010 none two_turns paused_consumer).1 ≡ some []
unfolding poll_loop poll_round taken wait select
is_cancelled_there = refl

poll_loop-PollEnds_example :
    PollEnds last request 2010 none paused_consumer two_turns
      (poll_loop last request 2010 none two_turns paused_consumer).0.queue
      (poll_loop last request 2010 none two_turns paused_consumer).1
poll_loop-PollEnds_example = poll_loop-PollEnds last request 2010 none two_turns paused_consumer
