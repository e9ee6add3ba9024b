-- ===== src/Consumer/Pull.antt =====
-- `PullConsumer` of crates/tgin-core/src/consumer/pull.rs. A poll is its start, and then one round
-- each time it wakes, with whatever other calls did in between.
use tgin.Prelude.{
  ℕ, ◌+◌, ◌*◌, ◌-◌, ◌^◌, Bool, true, false, Option, none, some, List, [], ◌∷◌, ◌++◌, map, take,
  is_empty, leb, min, ◌==◌, if◌then◌else◌,
}
use tgin.Prelude.Int.{ℤ, pos, negsuc}
use tgin.Core.{Envelope}
use tgin.Time.{saturating_duration_since, checked_add}
use tgin.Queue.Types.{LeaseQueue, QueueConfig, HolderId, Lease}
use tgin.Queue.Ops.{new, lease}
use tgin.Queue.Returns.{held, ack_below_each, ack_all_each, expire, stats}

abbrev pub drain_hold : ℕ
drain_hold = 500 * 1_000_000

pub record PollRequest : Type 0 where
  pub instance_of : HolderId
  pub offset : ℤ
  pub limit : ℕ
  pub timeout : ℕ

-- `latencies` are those that were recorded, `depth` the gauges last set, and `wakes` counts the
-- calls of `notify_waiters`.
pub record PullConsumer : Type 0 where
  pub queue : LeaseQueue Envelope
  pub draining : Bool
  pub paused : Bool
  pub gauges : Bool
  pub wakes : ℕ
  pub latencies : List ℕ
  pub depth : ℕ × ℕ × ℕ

-- `PollResponse::from_leases`
unfoldable pub from_leases : List (Lease Envelope) → List (List ℕ)
from_leases leases = map (λ l. l.item.payload) leases

-- A new consumer has set no gauge.
unfoldable pub new_consumer : QueueConfig → ℕ → PullConsumer
unfolding new
new_consumer cfg reservations = record {
  queue = new cfg reservations;
  draining = false;
  paused = false;
  gauges = true;
  wakes = 0;
  latencies = [];
  depth = (0, 0, 0);
}

-- A `usize` as an `i64`.
abbrev pub gauge : ℕ → ℕ
gauge n = min n (2 ^ 63 - 1)

unfoldable pub update_depth : PullConsumer → PullConsumer
unfolding stats
update_depth c =
    let s = stats c.queue in
    if c.gauges then record c { depth = (gauge s.available, gauge s.leased, 0) } else c

-- What the offset of a poll acknowledges: the queue, how many leases, and the items.
unfoldable pub acked : HolderId → ℤ → LeaseQueue Envelope → LeaseQueue Envelope × ℕ × List Envelope
unfolding ack_below_each ack_all_each
acked holder (pos n) q = if n == 0 then (q, 0, []) else ack_below_each holder (pos n) q
acked holder (negsuc n) q = ack_all_each holder q

unfoldable pub ack : HolderId → ℤ → ℕ → PullConsumer → PullConsumer
unfolding acked update_depth
ack holder offset now c =
    let (q, count, items) = acked holder offset c.queue in
    let recorded = record c {
      queue = q;
      latencies = c.latencies ++ map (λ e. saturating_duration_since now e.received_at) items;
    } in
    if count == 0 then recorded else update_depth recorded

-- A poll up to its loop: it may answer with what the instance holds.
unfoldable pub poll_start :
    ℕ → PollRequest → ℕ → PullConsumer → PullConsumer × Option (List (List ℕ))
unfolding ack held from_leases
poll_start last req start c =
    let after = ack req.instance_of req.offset start c in
    let (q, leases) = held last req.instance_of req.offset start after.queue in
    let kept = take req.limit leases in
    if is_empty kept
    then (record after { queue = q }, none)
    else (update_depth (record after { queue = q }), some (from_leases kept))

pub data Round : Type 0 where
  answered : List (List ℕ) → Round
  gave_up : Round
  parked : ℕ → Round

abbrev pub or_insert : ℕ → Option ℕ → ℕ
or_insert n none = n
or_insert n (some m) = m

-- The deadline of a poll that began at `start`.
unfoldable pub poll_deadline : ℕ → PollRequest → ℕ → ℕ
unfolding checked_add
poll_deadline last req start = or_insert start (checked_add last start req.timeout)

-- What a round leases; a paused consumer leases nothing.
unfoldable pub taken :
    ℕ → PollRequest → ℕ → PullConsumer → LeaseQueue Envelope × List (Lease Envelope)
taken last req now c =
    if c.paused then (c.queue, []) else lease last req.instance_of req.limit now c.queue

-- Until when a round that leased nothing waits: the poll's deadline or, in a drain, its hold.
abbrev pub until_of : ℕ → Option ℕ → ℕ → PullConsumer → ℕ
until_of deadline drain_deadline now c =
    if c.draining then min deadline (or_insert (now + drain_hold) drain_deadline) else deadline

-- The hold of a drain is set by the first round that leases nothing in it.
abbrev pub hold_of : Option ℕ → ℕ → PullConsumer → Option ℕ
hold_of drain_deadline now c =
    if c.draining then some (or_insert (now + drain_hold) drain_deadline) else drain_deadline

-- The end of a round that leased nothing: it gives up, or parks in the `select!`.
unfoldable pub wait : ℕ → Option ℕ → ℕ → PullConsumer → PullConsumer × Option ℕ × Round
unfolding update_depth
wait deadline drain_deadline now c =
    let until = until_of deadline drain_deadline now c in
    let kept = hold_of drain_deadline now c in
    if leb until now then (update_depth c, kept, gave_up) else (c, kept, parked until)

abbrev pub after_lease :
    ℕ
    → Option ℕ
    → ℕ
    → PullConsumer
    → LeaseQueue Envelope × List (Lease Envelope)
    → PullConsumer × Option ℕ × Round
after_lease deadline drain_deadline now c (q, []) =
    wait deadline drain_deadline now (record c { queue = q })
after_lease deadline drain_deadline now c (q, first ∷ leases) =
    (update_depth (record c { queue = q }), drain_deadline, answered (from_leases (first ∷ leases)))

-- A round of the loop.
unfoldable pub poll_round :
    ℕ → PollRequest → ℕ → Option ℕ → ℕ → PullConsumer → PullConsumer × Option ℕ × Round
unfolding taken wait from_leases
poll_round last req deadline drain_deadline now c =
    after_lease deadline drain_deadline now c (taken last req now c)

-- The arm of the `select!` that ends a wait; a timer that fires comes with its instant.
pub data Wake : Type 0 where
  changed woken cancelled : Wake
  timed_out : ℕ → Wake

-- A round of a poll: its instant, how the wait behind it ends, and what other calls did meanwhile.
pub record Turn : Type 0 where
  pub now : ℕ
  pub wake : Wake
  pub others : PullConsumer → PullConsumer

-- The `select!`: a notification leads to the `rest` of the loop, the timer and the cancellation out
-- of it. The timer is not ready before its instant: the poll is still parked then.
unfoldable pub select :
    ℕ
    → Wake
    → PullConsumer
    → PullConsumer × Option (List (List ℕ))
    → PullConsumer × Option (List (List ℕ))
unfolding update_depth
select until changed c rest = rest
select until woken c rest = rest
select until cancelled c rest = (update_depth c, some [])
select until (timed_out at) c rest = if leb until at then (update_depth c, some []) else (c, none)

-- What follows a round.
abbrev pub after_round :
    Turn
    → PullConsumer
    → Round
    → PullConsumer × Option (List (List ℕ))
    → PullConsumer × Option (List (List ℕ))
after_round turn after (answered items) rest = (after, some items)
after_round turn after gave_up rest = (after, some [])
after_round turn after (parked until) rest = select until turn.wake (turn.others after) rest

-- The loop of a poll, over its rounds; without a further one the poll is still parked.
unfoldable pub poll_loop :
    ℕ
    → PollRequest
    → ℕ
    → Option ℕ
    → List Turn
    → PullConsumer
    → PullConsumer × Option (List (List ℕ))
unfolding poll_round select
poll_loop last req deadline drain_deadline [] c = (c, none)
poll_loop last req deadline drain_deadline (turn ∷ turns) c =
    let (after, kept, round) = poll_round last req deadline drain_deadline turn.now c in
    let rest = poll_loop last req deadline kept turns (turn.others after) in
    after_round turn after round rest

unfoldable pub poll :
    ℕ → PollRequest → ℕ → List Turn → PullConsumer → PullConsumer × Option (List (List ℕ))
unfolding poll_start poll_deadline poll_loop
poll last req start turns c =
    let (after, first) = poll_start last req start c in
    elim first [
      | some items ↦ (after, some items)
      | none ↦ poll_loop last req (poll_deadline last req start) none turns after
    ]

unfoldable pub pending : PullConsumer → ℕ
unfolding stats
pending c = let s = stats c.queue in s.available + s.leased

unfoldable pub begin_drain : PullConsumer → PullConsumer
begin_drain c = record c { draining = true; wakes = c.wakes + 1 }

unfoldable pub end_drain : PullConsumer → PullConsumer
end_drain c = record c { draining = false }

unfoldable pub publish_gauges : Bool → PullConsumer → PullConsumer
publish_gauges on c = record c { gauges = on }

unfoldable pub pause : PullConsumer → PullConsumer
pause c = record c { paused = true }

unfoldable pub resume : PullConsumer → PullConsumer
resume c = record c { paused = false; wakes = c.wakes + 1 }

-- A tick of the task of `spawn_expiry`.
unfoldable pub tick : ℕ → PullConsumer → PullConsumer
unfolding expire update_depth
tick now c = update_depth (record c { queue = (expire now c.queue).0 })
