-- ===== src/Queue/Methods.antt =====
-- The indices and the totals after each method of `LeaseQueue` that adds nothing
-- (crates/tgin-runtime/src/queue.rs).
use tgin.Prelude.{
  ℕ, ◌≤◌, ◌≡◌, ==_iff, suc, refl, ap, ◌∙◌, sym, Bool, true, false, not, Option, none, some, List,
  [], ◌∷◌, length, is_empty, arith, Option-cases, Bool-cases, inl, inr,
}
use tgin.Prelude.Eq.{nat_eq, string_eq}
use tgin.Prelude.Int.{ℤ}
use tgin.Time.{checked_add}
use tgin.Containers.OrderedSet
use tgin.Containers.OrderedMap
use tgin.Containers.OrderedMap.{sum}
use tgin.Containers.KeyMap
use tgin.Queue.Types.{LeaseQueue, Inner, Entry, HolderId, QueueConfig}
use tgin.Queue.Inner.{holds, requeue, remove, eligible_of}
use tgin.Queue.Ops.{lease, with_inner}
use tgin.Queue.Returns.{
  held, held_each, ack_where, ack_seq, release_seq, expire, purge, purge_each, purge_where,
  drain_all, set_config, requeue_each, remove_each, keep, entry_is, is_due, flatten, notify_if,
}
use tgin.Queue.Inv.{
  Fits, Coherent, is_free, is_free_of, may_lease, positive, size_weight, free_weight, leased_size,
  leased_of,
}
use tgin.Queue.Loops.{
  NoMore, NoMore-refl, requeue_step, remove_step, requeue_each_step, remove_each_step,
}
use tgin.Queue.Loops.Clearing.{held_each_step, Purged, purge_each-Purged}
use tgin.Queue.Lease.{lease-LeaseSpec}

module _ {T : Type 0} where
  not_free-may_lease :
      (q : Inner T) (j : ℕ) (x : Option (Entry T)) → is_free x ≡ false → may_lease q j x ≡ false
  not_free-may_lease q j none h = refl
  not_free-may_lease q j (some e) h = ground arith

  not_free-free_of : (k : ℕ) (x : Option (Entry T)) → is_free x ≡ false → is_free_of k x ≡ false
  not_free-free_of k none h = refl
  not_free-free_of k (some e) h = ground arith

  all_leased-count :
      (n : ℕ) (m : List (ℕ × Entry T))
      → ((j : ℕ) → is_free (OrderedMap.get j m) ≡ false)
      → OrderedMap.IsAbove n m
      → sum free_weight m ≡ 0
  unfolding OrderedMap.get sum
  all_leased-count n [] h a = refl
  all_leased-count n ((j, e) ∷ m) h a =
      let rest =
        all_leased-count (suc j) m
          (λ z. ground (arith, h z, ==_iff z j, OrderedMap.get_below (suc j) z m a.1)) a.1 in
      ground (arith, rest, h j)

  -- What a method keeps, and the configuration after it.
  pub record Kept (q : LeaseQueue T) (cfg : QueueConfig) (r : LeaseQueue T) : Type 0 where
    pub cfg_is : r.inner.cfg ≡ cfg
    pub coherent : Coherent r.inner
    pub bytes_le : sum size_weight r.inner.entries ≤ sum size_weight q.inner.entries
    pub count_le : length r.inner.entries ≤ length q.inner.entries
    pub same_items : r.reserved_items ≡ q.reserved_items
    pub same_bytes : r.reserved_bytes ≡ q.reserved_bytes
    pub same_owner : r.reservations ≡ q.reservations

  Kept-inner :
      (q : LeaseQueue T) (i : Inner T)
      → Coherent i × NoMore q.inner i
      → Kept q q.inner.cfg (with_inner q i)
  Kept-inner q i (c, n) = record {
    cfg_is = n.same_cfg;
    coherent = c;
    bytes_le = n.bytes_le;
    count_le = n.count_le;
    same_items = refl;
    same_bytes = refl;
    same_owner = refl;
  }

  Kept-notify_if :
      (wake : Bool) (q r : LeaseQueue T)
      → Kept q q.inner.cfg r
      → Kept q q.inner.cfg (notify_if wake r)
  Kept-notify_if false q r k = k
  Kept-notify_if true q r k = record {
    cfg_is = k.cfg_is;
    coherent = k.coherent;
    bytes_le = k.bytes_le;
    count_le = k.count_le;
    same_items = k.same_items;
    same_bytes = k.same_bytes;
    same_owner = k.same_owner;
  }

  pub Kept-refl : (q : LeaseQueue T) → Coherent q.inner → Kept q q.inner.cfg q
  Kept-refl q c = Kept-inner q q.inner (c, NoMore-refl q.inner)

  module _ (q : LeaseQueue T) (c : Coherent q.inner) (f : Fits q.inner) where
    pub lease-Kept :
        (last : ℕ) (holder : HolderId) (max now : ℕ)
        → Kept q q.inner.cfg (lease last holder max now q).0
    lease-Kept last holder max now =
        let x = lease-LeaseSpec last holder max now q c f in
        let (items, bytes, owner) = x.same_reserved in
        record {
          cfg_is = x.no_more.same_cfg;
          coherent = x.coherent;
          bytes_le = x.no_more.bytes_le;
          count_le = x.no_more.count_le;
          same_items = items;
          same_bytes = bytes;
          same_owner = owner;
        }

    pub held-Kept :
        (last : ℕ) (holder : HolderId) (min_ack_id : ℤ) (now : ℕ)
        → Kept q q.inner.cfg (held last holder min_ack_id now q).0
    unfolding held
    held-Kept last holder min_ack_id now = elim (Option-cases (KeyMap.get holder q.inner.leases)) [
      | inl absent ↦ rw (absent, held) (Kept-refl q c)
      | inr (seqs, present) ↦
          rw (present, held)
            (Kept-inner q
              (record q.inner {
                entries =
                    (held_each seqs min_ack_id (checked_add last now q.inner.cfg.lease_timeout)
                      q.inner.entries).0;
              })
              (held_each_step seqs q.inner min_ack_id
                (checked_add last now q.inner.cfg.lease_timeout) c))
    ]

    pub ack_where-Kept :
        (holder : HolderId) (pred : Entry T → Bool) → Kept q q.inner.cfg (ack_where holder pred q).0
    unfolding ack_where
    ack_where-Kept holder pred = elim (Option-cases (KeyMap.get holder q.inner.leases)) [
      | inl absent ↦ rw (absent, ack_where) (Kept-refl q c)
      | inr (seqs, present) ↦
          let acked = keep (entry_is pred q.inner.entries) seqs in
          rw (present, ack_where)
            (Kept-notify_if _ q _
              (Kept-inner q (remove_each acked q.inner).0 (remove_each_step acked q.inner c f)))
    ]

    pub ack_seq-Kept : (holder : HolderId) (seq : ℕ) → Kept q q.inner.cfg (ack_seq holder seq q).0
    unfolding ack_seq
    ack_seq-Kept holder seq = elim (Bool-cases (holds q.inner holder seq)) [
      | inl held_by ↦
          rw (held_by, ack_seq)
            (Kept-notify_if _ q _
              (Kept-inner q (remove seq q.inner).0 (remove_step q.inner seq c f)))
      | inr unheld ↦ rw (unheld, ack_seq) (Kept-refl q c)
    ]

    pub release_seq-Kept :
        (holder : HolderId) (seq : ℕ) → Kept q q.inner.cfg (release_seq holder seq q).0
    unfolding release_seq
    release_seq-Kept holder seq = elim (Bool-cases (holds q.inner holder seq)) [
      | inl held_by ↦
          rw (held_by, release_seq)
            (Kept-notify_if true q _
              (Kept-inner q (requeue seq q.inner) (requeue_step q.inner seq c f)))
      | inr unheld ↦ rw (unheld, release_seq) (Kept-refl q c)
    ]

    pub expire-Kept : (now : ℕ) → Kept q q.inner.cfg (expire now q).0
    unfolding expire
    expire-Kept now =
        let expired = keep (entry_is (is_due now) q.inner.entries) (flatten q.inner.leases) in
        Kept-notify_if (not (is_empty expired)) q _
          (Kept-inner q (requeue_each expired q.inner) (requeue_each_step expired q.inner c f))

    pub purge_where-Kept : (pred : T → Bool) → Kept q q.inner.cfg (purge_where pred q).0
    unfolding purge_where
    purge_where-Kept pred =
        let matched = keep (entry_is (λ e. pred e.item) q.inner.entries) q.inner.available in
        Kept-inner q (remove_each matched q.inner).0 (remove_each_step matched q.inner c f)

    pub set_config-Kept : (cfg : QueueConfig) → Kept q cfg (set_config cfg q)
    unfolding set_config eligible_of
    set_config-Kept cfg = record {
      cfg_is = refl;
      coherent = record {
        base = record {
          entries_sorted = c.base.entries_sorted;
          fresh = c.base.fresh;
          available_sorted = c.base.available_sorted;
          available_is = c.base.available_is;
          available_count = c.base.available_count;
          bytes_is = c.base.bytes_is;
          leased_bytes_is = c.base.leased_bytes_is;
          queued_sorted = c.base.queued_sorted;
          queued_is = c.base.queued_is;
          counts_are = c.base.counts_are;
        };
        eligible = record {
          eligible_sorted = c.eligible.eligible_sorted;
          eligible_is = c.eligible.eligible_is;
        };
        holds = record { leases_sorted = c.holds.leases_sorted; leases_are = c.holds.leases_are };
      };
      bytes_le = omega arith;
      count_le = omega arith;
      same_items = refl;
      same_bytes = refl;
      same_owner = refl;
    }

    -- `purge` of the entries that are available.
    purged :
        Purged q.inner.available q.inner.entries
          (purge_each q.inner.available q.inner.entries q.inner.bytes).0
          (purge_each q.inner.available q.inner.entries q.inner.bytes).1
    purged =
        purge_each-Purged 0 q.inner.available q.inner.entries q.inner.bytes c.base.available_sorted
          (λ j h. sym (c.base.available_is j) ∙ h) c.base.entries_sorted c.base.bytes_is
          (omega (arith, f.bytes_fit))

    purged-leased : (j : ℕ) → is_free (OrderedMap.get j (purge q).0.inner.entries) ≡ false
    unfolding purge
    purged-leased j = ground (arith, purged.at j, c.base.available_is j)

    purged-may_lease :
        (j : ℕ) → may_lease (purge q).0.inner j (OrderedMap.get j (purge q).0.inner.entries) ≡ false
    purged-may_lease j =
        not_free-may_lease (purge q).0.inner j (OrderedMap.get j (purge q).0.inner.entries)
          (purged-leased j)

    purged-free_of : (k j : ℕ) → is_free_of k (OrderedMap.get j (purge q).0.inner.entries) ≡ false
    purged-free_of k j =
        not_free-free_of k (OrderedMap.get j (purge q).0.inner.entries) (purged-leased j)

    purge-Coherent : Coherent (purge q).0.inner
    unfolding purge OrderedSet.contains KeyMap.get
    purge-Coherent = record {
      base = record {
        entries_sorted = purged.sorted;
        fresh = λ j h. ground (arith, purged.at j, c.base.fresh j);
        available_sorted = tt;
        available_is = λ j. sym (purged-leased j);
        available_count =
            sym (all_leased-count 0 (purge q).0.inner.entries purged-leased purged.sorted);
        bytes_is = purged.bytes_are;
        leased_bytes_is =
            c.base.leased_bytes_is ∙ sym (purged.sums leased_size (λ e h. ground arith));
        queued_sorted = λ k. tt;
        queued_is = λ k j. sym (purged-free_of k j);
        counts_are = λ k.
            c.base.counts_are k
            ∙ ap positive (sym (purged.sums (leased_of k) (λ e h. ground arith)));
      };
      eligible = record { eligible_sorted = tt; eligible_is = λ j. sym (purged-may_lease j) };
      holds = record {
        leases_sorted = c.holds.leases_sorted;
        leases_are =
            λ h j. ground (arith, c.holds.leases_are h j, purged.at j, c.base.available_is j);
      };
    }

    pub purge-Kept : Kept q q.inner.cfg (purge q).0
    unfolding purge
    purge-Kept = record {
      cfg_is = refl;
      coherent = purge-Coherent;
      bytes_le = purged.bytes_le;
      count_le = purged.count_le;
      same_items = refl;
      same_bytes = refl;
      same_owner = refl;
    }

    pub drain_all-Kept : Kept q q.inner.cfg (drain_all q).0
    unfolding drain_all OrderedSet.contains OrderedMap.get KeyMap.get sum eligible_of
    drain_all-Kept = record {
      cfg_is = refl;
      coherent = record {
        base = record {
          entries_sorted = tt;
          fresh = λ j h. refl;
          available_sorted = tt;
          available_is = λ j. refl;
          available_count = refl;
          bytes_is = refl;
          leased_bytes_is = refl;
          queued_sorted = λ k. tt;
          queued_is = λ k j. refl;
          counts_are = λ k. refl;
        };
        eligible = record { eligible_sorted = tt; eligible_is = λ j. refl };
        holds = record { leases_sorted = λ h. tt; leases_are = λ h j. refl };
      };
      bytes_le = omega arith;
      count_le = omega arith;
      same_items = refl;
      same_bytes = refl;
      same_owner = refl;
    }
