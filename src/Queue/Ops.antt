-- ===== src/Queue/Ops.antt =====
-- `impl LeaseQueue<T>` of crates/tgin-runtime/src/queue.rs. Each method holds the lock for its whole
-- body, so it is one function on the queue; `wakes` counts the calls of `notify_waiters`, which
-- follow the unlocking. The drop of a permit holds no lock: its two subtractions, one of the items
-- and one of the bytes, are one function here (`commit` drops its permit under the lock).
use tgin.Prelude.{
  ℕ, zero, suc, ◌+◌, not, Option, none, some, List, [], ◌∷◌, ltb, ◌==◌, if◌then◌else◌, length,
  head?, take, is_empty, Result, ok, err,
}
use tgin.Prelude.Eq.{nat_eq, string_eq}
use tgin.Prelude.Int.{ℤ}
use tgin.Prelude.Words.{wrapping_add, wrapping_sub}
use tgin.Time.{checked_add}
use tgin.Containers.OrderedMap
use tgin.Containers.KeyMap.{add_members}
use tgin.Queue.Types.{
  LeaseQueue, Inner, Entry, Lease, HolderId, Full, too_large, QueueConfig, Permit, ForeignPermit,
  any_order, per_key, backpressure, drop_oldest,
}
use tgin.Queue.Inner.{to_lease, leased, room, rekeyed, link, start_lease, remove}

pub data Eviction : Type 0 where
  stop : Result Full ℕ → Eviction
  evict : ℕ → Eviction

module _ {T : Type 0} where
  unfoldable pub new : QueueConfig → ℕ → LeaseQueue T
  new cfg reservations = record {
    inner = record {
      cfg = cfg;
      entries = [];
      available = [];
      eligible = [];
      queued_per_key = [];
      leases = [];
      leased_per_key = [];
      next_seq = 0;
      bytes = 0;
      leased_bytes = 0;
    };
    reserved_items = 0;
    reserved_bytes = 0;
    reservations = reservations;
    wakes = 0;
  }

  abbrev pub reserved : LeaseQueue T → ℕ × ℕ
  reserved q = (q.reserved_items, q.reserved_bytes)

  abbrev pub with_inner : LeaseQueue T → Inner T → LeaseQueue T
  with_inner q i = record q { inner = i }

  abbrev pub notify : LeaseQueue T → LeaseQueue T
  notify q = record q { wakes = q.wakes + 1 }

  -- The head of the eviction loop of `try_reserve`: room, no unleased item, or the oldest of them.
  unfoldable pub next_eviction : ℕ × ℕ → ℕ → ℕ → Inner T → Eviction
  next_eviction held size evicted q = elim (room q held (length q.entries) q.bytes size) [
    | ok _ ↦ stop (ok evicted)
    | err full ↦ elim (head? q.available) [ none ↦ stop (err full) | some oldest ↦ evict oldest ]
  ]

  -- The loop, on fuel; `none` when the fuel runs out. It returns the queue with the number of
  -- evicted items, or with the refusal.
  unfoldable pub evict_until : ℕ → ℕ × ℕ → ℕ → ℕ → Inner T → Option (Inner T × Result Full ℕ)
  unfolding next_eviction
  evict_until zero held size evicted q = elim (next_eviction held size evicted q) [
    | stop r ↦ some (q, r)
    | evict oldest ↦ none
  ]
  evict_until (suc fuel) held size evicted q = elim (next_eviction held size evicted q) [
    | stop r ↦ some (q, r)
    | evict oldest ↦ evict_until fuel held size (evicted + 1) (remove oldest q).0
  ]

  -- The end of `try_reserve`: the atomics grow, and the permit.
  unfoldable pub grant : LeaseQueue T → ℕ → ℕ → LeaseQueue T × Permit
  grant q size evicted = (
    record q {
      reserved_items = wrapping_add q.reserved_items 1;
      reserved_bytes = wrapping_add q.reserved_bytes size;
    },
    record { evicted = evicted; size = size; granted_by = q.reservations },
  )

  -- What `try_reserve` does with the outcome of the loop.
  unfoldable pub after_eviction :
      LeaseQueue T
      → ℕ
      → Option (Inner T × Result Full ℕ)
      → Option (LeaseQueue T × Result Full Permit)
  unfolding grant
  after_eviction q size none = none
  after_eviction q size (some (i, err full)) = some (with_inner q i, err full)
  after_eviction q size (some (i, ok evicted)) =
      let (r, permit) = grant (with_inner q i) size evicted in some (r, ok permit)

  unfoldable pub try_reserve : LeaseQueue T → ℕ → Option (LeaseQueue T × Result Full Permit)
  unfolding after_eviction grant
  try_reserve q size =
      let i = q.inner in
      if ltb i.cfg.capacity_bytes size
      then some (q, err too_large)
      else elim (room i (reserved q) (length i.entries) i.bytes size) [
        | ok _ ↦ let (r, permit) = grant q size 0 in some (r, ok permit)
        | err full ↦ elim i.cfg.on_full [
          | backpressure ↦ some (q, err full)
          | drop_oldest ↦ elim (room i (reserved q) (leased i) i.leased_bytes size) [
            | err full' ↦ some (q, err full')
            | ok _ ↦ after_eviction q size (evict_until (length i.available) (reserved q) size 0 i)
          ]
        ]
      ]

  -- `Permit::drop`, on the queue that granted it.
  unfoldable pub drop_permit : Permit → LeaseQueue T → LeaseQueue T
  drop_permit permit q = record q {
    reserved_items = wrapping_sub q.reserved_items 1;
    reserved_bytes = wrapping_sub q.reserved_bytes permit.size;
  }

  -- A permit of another queue is dropped in that queue.
  unfoldable pub cancel : Permit → LeaseQueue T → LeaseQueue T
  unfolding drop_permit
  cancel permit q = if permit.granted_by == q.reservations then drop_permit permit q else q

  -- What `commit` does under the lock, before it drops the permit.
  unfoldable pub store : ℕ → T → Option ℕ → ℤ → Inner T → Inner T
  unfolding rekeyed link
  store size item key ack_id i =
      let seq = i.next_seq in
      rekeyed key (link seq key) (record i {
        next_seq = wrapping_add seq 1;
        entries =
            OrderedMap.insert seq
              (record { item = item; key = key; ack_id = ack_id; size = size; lease = none })
              i.entries;
        bytes = wrapping_add i.bytes size;
      })

  unfoldable pub commit :
      Permit → T → Option ℕ → ℤ → LeaseQueue T → LeaseQueue T × Result (ForeignPermit T) ℕ
  unfolding drop_permit
  commit permit item key ack_id q =
      if not (permit.granted_by == q.reservations)
      then (q, err (record { permit = permit; item = item }))
      else (
        notify (drop_permit permit (with_inner q (store permit.size item key ack_id q.inner))),
        ok q.inner.next_seq,
      )

  abbrev pub push_lease : ℕ → Option (Entry T) → List (Lease T) → List (Lease T)
  push_lease seq none leases = leases
  push_lease seq (some entry) leases = to_lease entry seq ∷ leases

  -- The loop of `lease`: the queue, and the leases in order.
  unfoldable pub lease_each : List ℕ → HolderId → Option ℕ → Inner T → Inner T × List (Lease T)
  lease_each [] holder deadline i = (i, [])
  lease_each (seq ∷ seqs) holder deadline i =
      let started = start_lease seq holder deadline i in
      let (r, leases) = lease_each seqs holder deadline started in
      (r, push_lease seq (OrderedMap.get seq started.entries) leases)

  abbrev pub candidates : Inner T → List ℕ
  candidates i = elim i.cfg.ordering [ any_order ↦ i.available | per_key ↦ i.eligible ]

  -- `last` is the platform's last instant.
  unfoldable pub lease : ℕ → HolderId → ℕ → ℕ → LeaseQueue T → LeaseQueue T × List (Lease T)
  unfolding lease_each
  lease last holder max now q =
      let picked = take max (candidates q.inner) in
      if is_empty picked
      then (q, [])
      else let deadline = checked_add last now q.inner.cfg.lease_timeout in
        let (i, leases) = lease_each picked holder deadline q.inner in
        (with_inner q (record i { leases = add_members holder picked i.leases }), leases)
