-- ===== src/Queue/Tests.antt =====
-- Runs of the queue, with numbers for items.
use tgin.Prelude.{ℕ, ◌+◌, ◌^◌, ◌<◌, ◌≡◌, refl, false, some, [], arith, ok}
use tgin.Prelude.Eq.{nat_eq, string_eq}
use tgin.Prelude.Int.{pos, ltb_ℤ}
use tgin.Prelude.Words.{wrapping_add, saturating_add}
use tgin.Containers.OrderedSet
use tgin.Containers.OrderedMap
use tgin.Containers.KeyMap
use tgin.Queue.Types.{LeaseQueue, QueueConfig, Permit, per_key, drop_oldest}
use tgin.Queue.Inner.{room, link, rekeyed, refresh, eligible_of}
use tgin.Queue.Ops.{new, try_reserve, grant, commit, store, drop_permit, lease}
use tgin.Queue.Inv.{Fits}
use tgin.Queue.Lease.{LeaseSpec, lease-LeaseSpec, Exclusive, is_leased_of, lease-Exclusive}
use tgin.Queue.Reserve.Spec.{Limits, Reserves, try_reserve-Reserves}
use tgin.Queue.Returns.{expire, ack_where, held}
use tgin.Queue.Loops.{NoMore-Fits}
use tgin.Time.{checked_add}
use tgin.Queue.Held.{reread_at, get-held}
use tgin.Queue.Expire.{expired_at, get-expire}
use tgin.Queue.Ack.{acked_at, get-ack_where}
use tgin.Queue.World.{Within, Sound, Reach, here, next, reserved, committed}
use tgin.Queue.World.Safety.{Sound-Fits, Sound-Limits, new-Sound, Step-Sound, Reach-Sound}

abbrev last : ℕ
last = 2 ^ 63

abbrev config : QueueConfig
config = record {
  capacity = 2;
  capacity_bytes = 100;
  lease_timeout = 30;
  ordering = per_key;
  on_full = drop_oldest;
}

abbrev empty : LeaseQueue ℕ
empty = new config 1

abbrev one_reserved : LeaseQueue ℕ
one_reserved = record empty { reserved_items = 1; reserved_bytes = 10 }

abbrev permit : Permit
permit = record { evicted = 0; size = 10; granted_by = 1 }

abbrev one_stored : LeaseQueue ℕ
one_stored = (commit permit 7 (some 3) (pos 40) one_reserved).0

config-Within : Within 2 100 config
config-Within = record { items_within = omega arith; bytes_within = omega arith }

reserves_one : try_reserve empty 10 ≡ some (one_reserved, ok permit)
unfolding try_reserve new grant room saturating_add wrapping_add
reserves_one = refl

has_seqs : one_reserved.inner.next_seq + 1 < 2 ^ 64
unfolding new
has_seqs = omega arith

stored-Reach : Reach 2 100 (empty, []) (one_stored, [])
stored-Reach =
    next (next here (reserved 10 reserves_one))
      (committed [] permit [] 7 (some 3) (pos 40) has_seqs)

Reach-Sound_example : Sound 2 100 one_stored []
Reach-Sound_example =
    Reach-Sound 2 100 (omega arith) (omega arith) config 1 config-Within stored-Reach

stored-Sound : Sound 2 100 one_stored []
stored-Sound =
    Step-Sound 2 100 (omega arith) (omega arith)
      (Step-Sound 2 100 (omega arith) (omega arith)
        (new-Sound 2 100 (omega arith) (omega arith) config 1 config-Within)
        (reserved 10 reserves_one))
      (committed [] permit [] 7 (some 3) (pos 40) has_seqs)

stored-Fits : Fits one_stored.inner
stored-Fits = Sound-Fits 2 100 (omega arith) (omega arith) one_stored [] stored-Sound

stored-Limits : Limits one_stored.inner.cfg
stored-Limits = Sound-Limits 2 100 (omega arith) (omega arith) one_stored [] stored-Sound

try_reserve-Reserves_example : Reserves one_stored 95 (try_reserve one_stored 95)
try_reserve-Reserves_example =
    try_reserve-Reserves one_stored 95 stored-Sound.coherent stored-Fits stored-Limits

lease-LeaseSpec_example :
    LeaseSpec last "worker" 5 1000 one_stored
      (lease last "worker" 5 1000 one_stored).0
      (lease last "worker" 5 1000 one_stored).1
lease-LeaseSpec_example =
    lease-LeaseSpec last "worker" 5 1000 one_stored stored-Sound.coherent stored-Fits

stored_per_key : one_stored.inner.cfg.ordering ≡ per_key
unfolding commit new store rekeyed refresh link eligible_of drop_permit OrderedMap.insert
    OrderedMap.get KeyMap.get KeyMap.insert KeyMap.add_member OrderedSet.insert
stored_per_key = refl

none_leased : (k i : ℕ) → is_leased_of k (OrderedMap.get i one_stored.inner.entries) ≡ false
unfolding commit new store rekeyed refresh link eligible_of drop_permit OrderedMap.insert
    OrderedMap.get KeyMap.get KeyMap.insert KeyMap.add_member OrderedSet.insert
none_leased k i = ground arith

stored-Exclusive : Exclusive one_stored.inner
stored-Exclusive k i j h g = absurd (ground (arith, h, none_leased k i))

lease-Exclusive_example : Exclusive (lease last "worker" 5 1000 one_stored).0.inner
lease-Exclusive_example =
    lease-Exclusive last "worker" 5 1000 one_stored stored-Sound.coherent stored-Fits stored_per_key
      stored-Exclusive

-- The item leased to a worker until 1030.
abbrev one_leased : LeaseQueue ℕ
one_leased = (lease last "worker" 5 1000 one_stored).0

lease-result :
    LeaseSpec last "worker" 5 1000 one_stored one_leased (lease last "worker" 5 1000 one_stored).1
lease-result = lease-LeaseSpec last "worker" 5 1000 one_stored stored-Sound.coherent stored-Fits

leased-Fits : Fits one_leased.inner
leased-Fits = NoMore-Fits lease-result.no_more stored-Fits

get-expire_example :
    OrderedMap.get 0 (expire 1040 one_leased).0.inner.entries
    ≡ expired_at 1040 (OrderedMap.get 0 one_leased.inner.entries)
get-expire_example = get-expire 1040 one_leased lease-result.coherent leased-Fits 0

get-ack_where_example :
    OrderedMap.get 0 (ack_where "worker" (λ e. ltb_ℤ e.ack_id (pos 41)) one_leased).0.inner.entries
    ≡ acked_at "worker" (λ e. ltb_ℤ e.ack_id (pos 41)) (OrderedMap.get 0 one_leased.inner.entries)
get-ack_where_example =
    get-ack_where "worker" (λ e. ltb_ℤ e.ack_id (pos 41)) one_leased lease-result.coherent
      leased-Fits 0

get-held_example :
    OrderedMap.get 0 (held last "worker" (pos 40) 1010 one_leased).0.inner.entries
    ≡ reread_at "worker"
        (pos 40)
        (checked_add last 1010 one_leased.inner.cfg.lease_timeout)
        (OrderedMap.get 0 one_leased.inner.entries)
get-held_example = get-held last "worker" (pos 40) 1010 one_leased 0 lease-result.coherent.holds
