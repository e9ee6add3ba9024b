-- ===== src/Lib.antt =====
-- Models and theorems for tgin, a router of Telegram bot updates. A source hands an update to the
-- engine, which routes it to consumers; each consumer keeps its updates in a leased queue until a
-- worker acknowledges them. Calls to the Bot API and to webhooks go through rate limiters, a
-- backoff and a circuit breaker.
--
-- What is modelled, and where:
-- - Queue is crates/tgin-runtime/src/queue.rs. `Queue.Types` has the data, `Queue.Inner` the steps
--   under the lock (`impl Inner`), `Queue.Ops` and `Queue.Returns` the methods of `LeaseQueue`. A
--   method is one critical section, so it is one function from queue to queue; the drop of a permit
--   is made without the lock, by one subtraction of the items and one of the bytes, and is one
--   function as well. `Queue.Inv` says
--   what the indices (available, eligible, queued_per_key, leases, leased_per_key, bytes,
--   leased_bytes) mean; its children are about each step. `Queue.Reserve` is about `try_reserve`,
--   `Queue.Lease` about `lease`, `Queue.Held`, `Queue.Expire` and `Queue.Ack` about the methods they
--   are named for, `Queue.Methods` about the indices after each method. `Queue.World` has every method as a step
--   on the queue and the permits that its callers hold.
-- - Breaker is crates/tgin-runtime/src/breaker.rs. `Breaker` has the methods, each as one call;
--   `Breaker.Machine` is a machine of three phases; `Breaker.Timing` is about thresholds and times;
--   `Breaker.Threads` cuts the methods at their atomic accesses and interleaves them.
-- - Limit is crates/tgin-runtime/src/limit.rs: `Limit.Quota` and `Limit.Keyed` have the code,
--   `Limit.Conform` is about the starts that a key is given, `Limit.Undo` about cancelling the last
--   booking and about `retain_recent`, `Limit.Stale` about cancelling an earlier booking.
-- - Backoff is crates/tgin-runtime/src/backoff.rs.
-- - Core is the data of crates/tgin-core/src/facts.rs, ids.rs, envelope.rs and sink.rs.
-- - Rules is crates/tgin-core/src/rules. `Rules.Spec` is spec.rs and the errors of mod.rs;
--   `Rules.Table`, `Rules.Schedule`, `Rules.Targets` and `Rules.Compile` are compile.rs;
--   `Rules.Walk` and `Rules.Route` are eval.rs. The automata and regexes are a parameter, `Matchers`,
--   and an atomic cursor of a split node is kept beside the table, by the node's number.
--   `Rules.Shape`, `Rules.Compiled`, `Rules.Arena` and `Rules.Rooted` relate the arena of nodes to
--   the target trees it was compiled from, `Rules.Delivery` says what a walk delivers,
--   `Rules.Scratch` and `Rules.Reuse` are about the regex scratch. `Rules.Written` says when the
--   predicates of a rule hold, without a table; `Rules.ChatTypes`, `Rules.Patterns`,
--   `Rules.TextMatchers`, `Rules.Faithful` and `Rules.InOrder` relate the compiled rules to them,
--   `Rules.Sources` and `Rules.Origins` the table to the sources that are listed. `Rules.Routing` is about compiling and routing together,
--   `Rules.Errors` about the errors of compiling, `Rules.Gcd`, `Rules.Balance` and
--   `Rules.Fair` about the schedules.
-- - Consumer is crates/tgin-core/src/consumer/pull.rs. `Consumer.Pull` has the code; a poll is its
--   start and a loop over its rounds, each with the arm of the `select!` that ends the wait behind it
--   and with what other calls do meanwhile. `Consumer.Polls` is about the start of a poll,
--   `Consumer.Ends` about how it ends.
-- - Gateway is crates/tgin-botapi/src/gateway/path.rs, with `valid_name` and `gateway_token` of
--   crates/tgin-core/src/config/mod.rs: `Gateway.Path` has the parser, on bytes, with percent decoding
--   as a parameter, and `Gateway.Parsed` is about what it accepts.
-- - Admission is crates/tgin-core/src/admission.rs and the slots of crates/tgin-core/src/engine.rs,
--   on the models of Queue and Rules. `Admission.Slots` and `Admission.Reserving` have the code;
--   `Admission.Seen` follows one queue, `Admission.Passes` the two passes, `Admission.Outcome` a
--   whole admission. One caller runs it alone; the interleavings of callers are in `Queue.World`.
-- - Prelude, Time and Containers are what these share. BTreeSet and BTreeMap are sorted lists,
--   HashMap is a list of pairs.
--
-- Numbers: usize and u64 are 64 bits, and what wraps in the code wraps here. Instants and durations
-- are nanoseconds. The platform's last instant, the hash of a key and a random draw are parameters.
-- The eviction loop of `try_reserve` runs on fuel, as many rounds as items are available, since each
-- round takes one away; the loop of `gcd` on one more than its second number, which each round makes
-- smaller. The walk of a table runs on as many steps as there are nodes, since the children of a
-- compiled node stand before it. The loop of a poll runs over the rounds that are given. The `i64` sum of
-- the weights of a split is exact, as it is for fewer than 2^31 weights of 32 bits.
--
-- Not modelled: the slot calendar of limit.rs, the push consumer, the rest of the engine and its
-- reloads, configuration, the rest of the Bot API gateway, the clients, HTTP, logging and metrics,
-- which are later parts or input and output. Waking of waiters is counted, not scheduled.
pub mod Prelude
pub mod Time
pub mod Containers
pub mod Admission
pub mod Backoff
pub mod Breaker
pub mod Consumer
pub mod Core
pub mod Gateway
pub mod Limit
pub mod Queue
pub mod Rules
