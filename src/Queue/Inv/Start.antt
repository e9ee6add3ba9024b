-- ===== src/Queue/Inv/Start.antt =====
-- The indices after `start_lease` of crates/tgin-runtime/src/queue.rs.
use tgin.Prelude.{
  ℕ, suc, ◌+◌, ◌≤◌, ◌<◌, ◌≡◌, refl, true, none, some, List, ◌==◌, if◌then◌else◌, length, arith,
  Option-cases, inl, inr,
}
use tgin.Prelude.Eq.{nat_eq, string_eq}
use tgin.Prelude.Words.{wrapping_add, wrapping_add_exact}
use tgin.Containers.OrderedSet
use tgin.Containers.OrderedMap
use tgin.Containers.OrderedMap.{sum}
use tgin.Containers.KeyMap
use tgin.Containers.KeyMap.{set_of}
use tgin.Queue.Types.{Inner, Entry, Holding}
use tgin.Queue.Inner.{eligible_of, take_out, start_lease}
use tgin.Queue.Inv.{
  Base, Fits, IsEligible, OneEntry, is_key, free_weight, size_weight, leased_size, leased_of,
}
use tgin.Queue.Inv.Rekey.{
  KeyedChange, KeylessChange, eligible_of-frame, Rekeyed, rekeyed-Rekeyed, Rekeyed-frame,
}

module _ {T : Type 0} (q : Inner T) (s : ℕ) (e : Entry T) (lease : Holding) (b : Base q)
    (at : OrderedMap.get s q.entries ≡ some e) (unleased : e.lease ≡ none) where
  taken : Entry T
  taken = record e { lease = some lease }

  started : Inner T
  unfolding taken
  started = record q {
    entries = OrderedMap.insert s taken q.entries;
    leased_bytes = wrapping_add q.leased_bytes e.size;
  }

  is_available : OrderedSet.contains s q.available ≡ true
  is_available = ground (arith, b.available_is s)

  sums :
      (w : Entry T → ℕ)
      → sum w (OrderedMap.insert s taken q.entries) + w e ≡ sum w q.entries + w taken
  sums w = ground (arith, OrderedMap.sum-insert w s taken q.entries b.entries_sorted)

  abbrev rest : List (ℕ × Entry T)
  rest = OrderedMap.remove s q.entries

  -- The entry itself is not among the leased ones.
  below_count : (k : ℕ) → sum (leased_of k) q.entries < length q.entries
  below_count k = ground (
    arith,
    OrderedMap.length-sum q.entries,
    OrderedMap.sum-remove (leased_of k) s q.entries,
    OrderedMap.sum-remove (λ (_ : Entry T). 1) s q.entries,
    OrderedMap.sum_mono (leased_of k) (λ _. 1) rest (λ x. ground arith),
  )

  below_bytes : sum leased_size q.entries + e.size ≤ sum size_weight q.entries
  below_bytes = ground (
    arith,
    OrderedMap.sum-remove leased_size s q.entries,
    OrderedMap.sum-remove size_weight s q.entries,
    OrderedMap.sum_mono leased_size size_weight rest (λ x. ground arith),
  )

  -- The changed queue, before `eligible` is brought up to date.
  pub changed : Inner T
  unfolding started
  changed = take_out s e.key started

  changed_entries : changed.entries ≡ OrderedMap.insert s taken q.entries
  unfolding changed take_out
  changed_entries = ground arith

  changed_available : changed.available ≡ OrderedSet.remove s q.available
  unfolding changed take_out
  changed_available = ground (arith, is_available)

  changed_frame :
      (changed.next_seq ≡ q.next_seq)
      × (changed.bytes ≡ q.bytes)
      × (changed.leases ≡ q.leases)
      × (changed.cfg ≡ q.cfg)
      × (changed.leased_bytes ≡ wrapping_add q.leased_bytes e.size)
  unfolding changed take_out
  changed_frame = ground (arith, is_available)

  changed_queued :
      (k : ℕ)
      → set_of k changed.queued_per_key ≡ (
          if is_key k e.key
          then OrderedSet.remove s (set_of k q.queued_per_key)
          else set_of k q.queued_per_key)
  unfolding changed take_out
  changed_queued k = elim (Option-cases e.key) [
    | inl keyless ↦ ground (arith, is_available)
    | inr (key, keyed) ↦
        ground (arith, is_available, KeyMap.set_of-remove_member k key s q.queued_per_key)
  ]

  changed_counts :
      (k : ℕ)
      → Fits q
      → KeyMap.get k changed.leased_per_key ≡ (
          if is_key k e.key
          then some (suc (sum (leased_of k) q.entries))
          else KeyMap.get k q.leased_per_key)
  unfolding changed take_out
  changed_counts k f = elim (Option-cases e.key) [
    | inl keyless ↦ ground (arith, is_available)
    | inr (key, keyed) ↦ ground (
      arith,
      is_available,
      KeyMap.get-increment k key q.leased_per_key,
      below_count key,
      b.counts_are key,
      f.count_fits,
    )
  ]

  at_changed :
      (j : ℕ)
      → OrderedMap.get j changed.entries
        ≡ (if j == s then some taken else OrderedMap.get j q.entries)
  at_changed j = rw (changed_entries, OrderedMap.get-insert) refl

  changed-Base : Fits q → Base changed
  unfolding taken
  changed-Base f = record {
    entries_sorted =
        ground
          (arith, changed_entries, OrderedMap.insert-IsSorted s taken q.entries b.entries_sorted);
    fresh = λ j h. ground (arith, b.fresh j, b.fresh s, at_changed j, changed_frame);
    available_sorted =
        ground
          (arith, changed_available, OrderedSet.remove-IsSorted s q.available b.available_sorted);
    available_is = λ j. ground (
      arith,
      changed_available,
      b.available_is j,
      at_changed j,
      OrderedSet.contains-remove j s q.available b.available_sorted,
    );
    available_count = ground (
      arith,
      changed_available,
      changed_entries,
      b.available_count,
      sums free_weight,
      is_available,
      OrderedSet.length-remove s q.available,
    );
    bytes_is = ground (arith, changed_frame, changed_entries, b.bytes_is, sums size_weight);
    leased_bytes_is = ground (
      arith,
      changed_frame,
      changed_entries,
      b.leased_bytes_is,
      sums leased_size,
      below_bytes,
      f.bytes_fit,
      wrapping_add_exact q.leased_bytes e.size,
    );
    queued_sorted = λ k. ground (
      arith,
      changed_queued k,
      b.queued_sorted k,
      OrderedSet.remove-IsSorted s (set_of k q.queued_per_key) (b.queued_sorted k),
    );
    queued_is = λ k j. ground (
      arith,
      changed_queued k,
      at_changed j,
      b.queued_is k j,
      OrderedSet.contains-remove j s (set_of k q.queued_per_key) (b.queued_sorted k),
    );
    counts_are = λ k.
        ground (arith, changed_counts k f, b.counts_are k, changed_entries, sums (leased_of k));
  }

  changed-KeyedChange : (k : ℕ) → e.key ≡ some k → Fits q → KeyedChange q changed s k
  unfolding changed take_out taken
  changed-KeyedChange k keyed f = record {
    same_eligible = ground (arith, is_available);
    others = λ j h. ground (arith, at_changed j);
    keyed_before = ground arith;
    keyed_after = ground (arith, at_changed s);
    other_keys = λ i h.
        eligible_of-frame q changed i (ground (arith, changed_counts i f))
          (ground (arith, changed_queued i));
  }

  changed-KeylessChange : e.key ≡ none → IsEligible q → Fits q → KeylessChange q changed s
  unfolding changed take_out taken
  changed-KeylessChange keyless i f = record {
    sorted =
        ground (arith, is_available, OrderedSet.remove-IsSorted s q.eligible i.eligible_sorted);
    eligible_at = λ j. ground (
      arith,
      is_available,
      at_changed s,
      OrderedSet.contains-remove j s q.eligible i.eligible_sorted,
    );
    others = λ j h. ground (arith, at_changed j);
    keyless = ground (arith, at_changed s);
    all_keys = λ k.
        eligible_of-frame q changed k (ground (arith, changed_counts k f))
          (ground (arith, changed_queued k));
  }

  -- The indices are right again after `start_lease`, and the rest of the queue is as `changed` says.
  pub start_lease-Rekeyed :
      IsEligible q → Fits q → Rekeyed q (start_lease s lease.holder lease.deadline q) changed
  unfolding start_lease started taken eligible_of changed
  start_lease-Rekeyed i f =
      rw (at, start_lease)
        (rekeyed-Rekeyed q started s e.key (take_out s e.key) b i (λ k. refl) (changed-Base f)
          (λ k keyed. changed-KeyedChange k keyed f) (λ keyless. changed-KeylessChange keyless i f))

  pub start_lease-OneEntry :
      IsEligible q
      → Fits q
      → OneEntry q
          (start_lease s lease.holder lease.deadline q)
          s
          (some (record e { lease = some lease }))
  unfolding taken
  start_lease-OneEntry i f =
      let x = start_lease-Rekeyed i f in
      record {
        at = λ j. ground (arith, Rekeyed-frame x, at_changed j);
        sums = λ w. ground (arith, Rekeyed-frame x, changed_entries, sums w);
        same_cfg = ground (arith, Rekeyed-frame x, changed_frame);
      }

  pub start_lease-leases :
      IsEligible q
      → Fits q
      → ((start_lease s lease.holder lease.deadline q).leases ≡ q.leases)
        × ((start_lease s lease.holder lease.deadline q).next_seq ≡ q.next_seq)
  start_lease-leases i f =
      let x = start_lease-Rekeyed i f in ground (arith, Rekeyed-frame x, changed_frame)
