-- ===== src/Queue/Lease.antt =====
-- `LeaseQueue::lease` of crates/tgin-runtime/src/queue.rs, as a whole.
use tgin.Prelude.{
  ℕ, ◌≡◌, refl, ap, ◌∙◌, sym, Bool, true, false, ◌&&◌, Option, none, some, List, [], ◌∷◌, ==_iff,
  if◌then◌else◌, take, is_empty, is_some, arith, Option-cases, Bool-cases, inl, inr, ◌⊎◌,
}
use tgin.Prelude.Eq.{nat_eq, string_eq}
use tgin.Time.{checked_add}
use tgin.Containers.OrderedSet
use tgin.Containers.OrderedMap
use tgin.Containers.OrderedMap.{sum}
use tgin.Containers.KeyMap.{add_members}
use tgin.Queue.Types.{
  Inner, Entry, Lease, Holding, HolderId, LeaseQueue, Ordering, any_order, per_key,
}
use tgin.Queue.Inner.{eligible_of}
use tgin.Queue.Ops.{lease_each, lease, candidates}
use tgin.Queue.Inv.{
  Base, Fits, IsEligible, Coherent, with_leases-Coherent, is_free, is_key, may_lease, leased_of,
}
use tgin.Queue.Loops.{NoMore, NoMore-refl}
use tgin.Queue.Loops.Leasing.{mark, snapshot, AllFree, lease_each-Leased, Leased-HoldsLeases}

is_key_unique : (i j : ℕ) (o : Option ℕ) → is_key i o ≡ true → is_key j o ≡ true → i ≡ j
is_key_unique i j none h g = cc
is_key_unique i j (some x) h g = ground arith

module _ {T : Type 0} where
  may_lease-free :
      (q : Inner T) (j : ℕ) (x : Option (Entry T)) → may_lease q j x ≡ true → is_free x ≡ true
  may_lease-free q j none h = h
  may_lease-free q j (some e) h = ground arith

  candidates-AllFree :
      (q : Inner T) (max : ℕ) → Base q → IsEligible q → AllFree 0 (take max (candidates q)) q
  candidates-AllFree q max b i = go q.cfg.ordering refl
    where
      go : (o : Ordering) → q.cfg.ordering ≡ o → AllFree 0 (take max (candidates q)) q
      go any_order e = rw e (record {
        above = OrderedSet.take-IsAbove max 0 q.available b.available_sorted;
        free = λ j h. sym (b.available_is j) ∙ OrderedSet.contains-take j max q.available h;
      })
      go per_key e = rw e (record {
        above = OrderedSet.take-IsAbove max 0 q.eligible i.eligible_sorted;
        free = λ j h.
            may_lease-free q j (OrderedMap.get j q.entries)
              (sym (i.eligible_is j) ∙ OrderedSet.contains-take j max q.eligible h);
      })

  module _ (last : ℕ) (holder : HolderId) (max now : ℕ) (q : LeaseQueue T) where
    abbrev pub picked : List ℕ
    picked = take max (candidates q.inner)

    abbrev pub holding : Holding
    holding = record { holder = holder; deadline = checked_add last now q.inner.cfg.lease_timeout }

    -- What `lease` hands out and does to the entries; every index is right after it.
    pub record LeaseSpec (r : LeaseQueue T) (leases : List (Lease T)) : Type 0 where
      pub coherent : Coherent r.inner
      pub no_more : NoMore q.inner r.inner
      pub handed : leases ≡ snapshot picked q.inner.entries
      pub at :
          (j : ℕ)
          → OrderedMap.get j r.inner.entries ≡ (
              if OrderedSet.contains j picked
              then mark holding (OrderedMap.get j q.inner.entries)
              else OrderedMap.get j q.inner.entries)
      pub same_reserved :
          (r.reserved_items ≡ q.reserved_items)
          × (r.reserved_bytes ≡ q.reserved_bytes)
          × (r.reservations ≡ q.reservations)

    abbrev LeaseGives : LeaseQueue T × List (Lease T) → Type 0
    LeaseGives r = LeaseSpec r.0 r.1

    nothing_picked :
        (s : List ℕ)
        → is_empty s ≡ true
        → Coherent q.inner
        → (snapshot s q.inner.entries ≡ [])
          × ((j : ℕ)
              → OrderedMap.get j q.inner.entries ≡ (
                  if OrderedSet.contains j s
                  then mark holding (OrderedMap.get j q.inner.entries)
                  else OrderedMap.get j q.inner.entries))
    unfolding OrderedSet.contains snapshot
    nothing_picked [] h c = (refl, λ j. refl)
    nothing_picked (s ∷ seqs) h c = cc

    -- On a coherent queue whose totals fit, lease hands out the first max candidates of the
    -- ordering in seq order, each with its ack id and item, marks exactly those entries with the
    -- holder and the deadline, changes no other entry and no reservation, and leaves the queue
    -- coherent.
    pub lease-LeaseSpec :
        Coherent q.inner
        → Fits q.inner
        → LeaseSpec (lease last holder max now q).0 (lease last holder max now q).1
    unfolding lease
    lease-LeaseSpec c f = elim (Bool-cases (is_empty picked)) [
      | inl none_picked ↦
          let (n, at) = nothing_picked picked none_picked c in
          rw none_picked (record {
            coherent = c;
            no_more = NoMore-refl q.inner;
            handed = sym n;
            at = at;
            same_reserved = (refl, refl, refl);
          })
      | inr some_picked ↦
          let a = candidates-AllFree q.inner max c.base c.eligible in
          let (x, l) = lease_each-Leased 0 picked holding q.inner c.base c.eligible f a in
          rw some_picked (record {
            coherent =
                with_leases-Coherent (lease_each picked holder holding.deadline q.inner).0
                  (add_members holder picked
                    (lease_each picked holder holding.deadline q.inner).0.leases)
                  x.base x.eligible
                  (Leased-HoldsLeases 0 picked holding q.inner
                    (lease_each picked holder holding.deadline q.inner).0 c.holds a x);
            no_more = record {
              bytes_le = x.no_more.bytes_le;
              count_le = x.no_more.count_le;
              same_cfg = x.no_more.same_cfg;
              same_seq = x.no_more.same_seq;
            };
            handed = l;
            at = x.at;
            same_reserved = (refl, refl, refl);
          })
    ]

  -- No two leased entries have one key.
  abbrev pub is_leased_of : ℕ → Option (Entry T) → Bool
  is_leased_of k none = false
  is_leased_of k (some e) = is_some e.lease && is_key k e.key

  abbrev pub Exclusive : Inner T → Type 0
  Exclusive q =
      (k i j : ℕ)
      → is_leased_of k (OrderedMap.get i q.entries) ≡ true
      → is_leased_of k (OrderedMap.get j q.entries) ≡ true
      → i ≡ j

  -- A key that has a leased entry is not eligible.
  leased-not_eligible :
      (q : Inner T) (k i j : ℕ)
      → Base q
      → is_leased_of k (OrderedMap.get i q.entries) ≡ true
      → is_key j (eligible_of q k) ≡ false
  unfolding eligible_of
  leased-not_eligible q k i j b h =
      ground (arith, b.counts_are k, OrderedMap.weight-le-sum (leased_of k) i q.entries)

  -- What is handed out under a key is what `eligible_of` names.
  picked-eligible :
      (q : Inner T) (h : Holding) (k j : ℕ) (x : Option (Entry T))
      → may_lease q j x ≡ true
      → is_leased_of k (mark h x) ≡ true
      → is_key j (eligible_of q k) ≡ true
  picked-eligible q h k j none m l = cc
  picked-eligible q h k j (some e) m l = elim (Option-cases e.key) [
    | inl keyless ↦ absurd (ground arith)
    | inr (key, keyed) ↦ ground (arith, ==_iff k key, ap (eligible_of q) {x = k} {y = key})
  ]

  module _ (last : ℕ) (holder : HolderId) (max now : ℕ) (q : LeaseQueue T) (c : Coherent q.inner)
      (f : Fits q.inner) (ord : q.inner.cfg.ordering ≡ per_key) where
    after : Inner T
    after = (lease last holder max now q).0.inner

    -- An entry leased under a key is the eligible one, or was leased before.
    leased_after :
        (k i : ℕ)
        → is_leased_of k (OrderedMap.get i after.entries) ≡ true
        → (is_key i (eligible_of q.inner k) ≡ true)
          ⊎ (is_leased_of k (OrderedMap.get i q.inner.entries) ≡ true)
    unfolding after
    leased_after k i h =
        let x = lease-LeaseSpec last holder max now q c f in
        elim (Bool-cases (OrderedSet.contains i (picked last holder max now q))) [
          | inl taken ↦ inl (
              picked-eligible q.inner (holding last holder max now q) k i
                (OrderedMap.get i q.inner.entries)
                (sym (c.eligible.eligible_is i)
                  ∙ OrderedSet.contains-take i max q.inner.eligible (ground arith))
                (ground (arith, x.at i)))
          | inr left ↦ inr (ground (arith, x.at i))
        ]

    -- Under Ordering::PerKey, on a coherent queue whose totals fit and where no two leased
    -- entries share a key, no two do after a lease.
    pub lease-Exclusive : Exclusive q.inner → Exclusive (lease last holder max now q).0.inner
    unfolding after
    lease-Exclusive ex k i j hi hj = go (leased_after k i hi) (leased_after k j hj)
      where
        go :
            (is_key i (eligible_of q.inner k) ≡ true)
              ⊎ (is_leased_of k (OrderedMap.get i q.inner.entries) ≡ true)
            → (is_key j (eligible_of q.inner k) ≡ true)
              ⊎ (is_leased_of k (OrderedMap.get j q.inner.entries) ≡ true)
            → i ≡ j
        go (inl a) (inl b) = is_key_unique i j (eligible_of q.inner k) a b
        go (inl a) (inr b) = absurd (ground (arith, a, leased-not_eligible q.inner k j i c.base b))
        go (inr a) (inl b) = absurd (ground (arith, b, leased-not_eligible q.inner k i j c.base a))
        go (inr a) (inr b) = ex k i j a b
