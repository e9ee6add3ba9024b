-- ===== src/Queue/Reserve/Spec.antt =====
-- What `try_reserve` of crates/tgin-runtime/src/queue.rs promises, on every branch.
use tgin.Prelude.{
  ℕ, ◌+◌, ◌≤◌, ◌<◌, ◌^◌, ◌≡◌, ◌≢◌, refl, ap, sym, subst, false, Option, none, some, length, ltb,
  ltb→lt, arith, Bool-cases, inl, inr, ◌⊎◌, Result, ok, err,
}
use tgin.Prelude.Words.{u64_max, wrapping_add, wrapping_add_exact}
use tgin.Queue.Types.{
  Inner, LeaseQueue, Full, QueueConfig, Permit, OnFull, backpressure, drop_oldest,
}
use tgin.Queue.Inner.{room, leased}
use tgin.Queue.Ops.{evict_until, after_eviction, grant, try_reserve, reserved, with_inner}
use tgin.Queue.Inv.{Fits, Coherent}
use tgin.Queue.Reserve.{Evicted, Evicted-refl, evict_until-Done, room-cases}

-- Limits of a size that the counters can hold.
pub record Limits (cfg : QueueConfig) : Type 0 where
  pub items_limit : cfg.capacity < 2 ^ 32
  pub bytes_limit : cfg.capacity_bytes < u64_max

module _ {T : Type 0} where
  -- With such limits the saturating sums are exact.
  pub room-exact :
      (q : Inner T) (held : ℕ × ℕ) (items bytes size : ℕ)
      → Limits q.cfg
      → room q held items bytes size ≡ ok tt
      → (items + held.0 < q.cfg.capacity) × (bytes + held.1 + size ≤ q.cfg.capacity_bytes)
  unfolding room
  room-exact q held items bytes size l h = ground (arith, l)

  pub record Granted (q : LeaseQueue T) (size : ℕ) (r : LeaseQueue T) (permit : Permit)
      : Type 0 where
    pub evicted_oldest : Evicted q.inner r.inner
    pub evicted_count : permit.evicted + length r.inner.entries ≡ length q.inner.entries
    pub permit_size : permit.size ≡ size
    pub permit_owner : permit.granted_by ≡ q.reservations
    pub one_more : r.reserved_items ≡ q.reserved_items + 1
    pub more_bytes : r.reserved_bytes ≡ q.reserved_bytes + size
    pub same_owner : r.reservations ≡ q.reservations
    pub within_items : length r.inner.entries + r.reserved_items ≤ q.inner.cfg.capacity
    pub within_bytes : r.inner.bytes + r.reserved_bytes ≤ q.inner.cfg.capacity_bytes

  -- A refusal changes nothing, and comes only where there is no room: under `drop_oldest`, where
  -- there is none even next to the leased items alone.
  abbrev pub Refused : LeaseQueue T → ℕ → LeaseQueue T → Type 0
  Refused q size r =
      (r ≡ q)
      × ((q.inner.cfg.capacity_bytes < size)
          ⊎ ((room q.inner (reserved q) (length q.inner.entries) q.inner.bytes size ≢ ok tt)
              × ((q.inner.cfg.on_full ≡ backpressure)
                  ⊎ (room q.inner (reserved q) (leased q.inner) q.inner.leased_bytes size
                      ≢ ok tt))))

  abbrev pub ReserveSpec : LeaseQueue T → ℕ → LeaseQueue T → Result Full Permit → Type 0
  ReserveSpec q size r (ok permit) = Granted q size r permit
  ReserveSpec q size r (err full) = Refused q size r

  abbrev pub Reserves : LeaseQueue T → ℕ → Option (LeaseQueue T × Result Full Permit) → Type 0
  Reserves q size none = ⊥
  Reserves q size (some (r, x)) = ReserveSpec q size r x

  grant-Granted :
      (q : LeaseQueue T) (size evicted : ℕ) (i : Inner T)
      → Limits q.inner.cfg
      → Evicted q.inner i
      → room i (reserved q) (length i.entries) i.bytes size ≡ ok tt
      → evicted + length i.entries ≡ length q.inner.entries
      → Granted q size
          (grant (with_inner q i) size evicted).0
          (grant (with_inner q i) size evicted).1
  unfolding grant
  grant-Granted q size evicted i l x has n =
      let (a, b) =
        room-exact i (reserved q) (length i.entries) i.bytes size
          (subst Limits (sym x.no_more.same_cfg) l) has in
      let cfg = x.no_more.same_cfg in
      let items : wrapping_add q.reserved_items 1 ≡ q.reserved_items + 1 =
        wrapping_add_exact q.reserved_items 1
          (omega (arith, a, ap (λ c. c.capacity) cfg, l.items_limit)) in
      let bytes : wrapping_add q.reserved_bytes size ≡ q.reserved_bytes + size =
        wrapping_add_exact q.reserved_bytes size
          (omega (arith, b, ap (λ c. c.capacity_bytes) cfg, l.bytes_limit)) in
      record {
        evicted_oldest = record {
          coherent = x.coherent;
          no_more = x.no_more;
          kept = x.kept;
          oldest_first = x.oldest_first;
        };
        evicted_count = n;
        permit_size = refl;
        permit_owner = refl;
        one_more = items;
        more_bytes = bytes;
        same_owner = refl;
        within_items = omega (arith, a, items, ap (λ c. c.capacity) cfg);
        within_bytes = omega (arith, b, bytes, ap (λ c. c.capacity_bytes) cfg);
      }

  module _ (q : LeaseQueue T) (size : ℕ) (c : Coherent q.inner) (f : Fits q.inner)
      (l : Limits q.inner.cfg) where
    evicting :
        room q.inner (reserved q) (leased q.inner) q.inner.leased_bytes size ≡ ok tt
        → Reserves q size (
            after_eviction q size
              (evict_until (length q.inner.available) (reserved q) size 0 q.inner))
    unfolding after_eviction
    evicting fits =
        let d =
          evict_until-Done (length q.inner.available) (reserved q) size 0 q.inner c f fits
            (omega (arith, c.base.available_count)) in
        rw (d.result_is) (
          grant-Granted q size d.count d.final l d.evicted_oldest d.has_room
            (omega (arith, d.counted)))

    by_mode :
        (mode : OnFull)
        → q.inner.cfg.on_full ≡ mode
        → (full : Full)
        → room q.inner (reserved q) (length q.inner.entries) q.inner.bytes size ≡ err full
        → ltb q.inner.cfg.capacity_bytes size ≡ false
        → Reserves q size (try_reserve q size)
    unfolding try_reserve
    by_mode backpressure m full lacks fits_size =
        subst (Reserves q size) {x = some (q, err full)} (sym (ground (arith, m, lacks, fits_size)))
          (refl, inr (λ h. ground (arith, h, lacks), inl m))
    by_mode drop_oldest m full lacks fits_size =
        elim (room-cases q.inner (reserved q) (leased q.inner) q.inner.leased_bytes size) [
          | inl fits ↦ simp (fits_size, lacks, m, fits) (evicting fits)
          | inr (full', tight) ↦
              subst (Reserves q size) {x = some (q, err full')}
                (sym (ground (arith, m, lacks, fits_size, tight)))
                (refl, inr (λ h. ground (arith, h, lacks), inr (λ h. ground (arith, h, tight))))
        ]

    -- On a coherent queue whose totals fit and whose limits the counters can hold, try_reserve
    -- returns: its eviction loop ends. A grant reserves one item of the size, within both
    -- limits, has evicted only unleased entries, the oldest first, and counts them; a refusal
    -- leaves the queue as it was, and comes only where the item is too large or there is no
    -- room, under drop_oldest not even next to the leased entries alone.
    pub try_reserve-Reserves : Reserves q size (try_reserve q size)
    unfolding try_reserve
    try_reserve-Reserves = elim (Bool-cases (ltb q.inner.cfg.capacity_bytes size)) [
      | inl large ↦ rw (large, try_reserve) (refl, inl (ltb→lt _ _ large))
      | inr fits_size ↦
          elim (room-cases q.inner (reserved q) (length q.inner.entries) q.inner.bytes size) [
            | inl has ↦
                rw (fits_size, has, try_reserve)
                  (grant-Granted q size 0 q.inner l (Evicted-refl q.inner c) has (omega arith))
            | inr (full, lacks) ↦ by_mode q.inner.cfg.on_full refl full lacks fits_size
          ]
    ]
