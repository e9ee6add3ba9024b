-- ===== src/Queue/Inv/Store.antt =====
-- The indices after what `commit` of crates/tgin-runtime/src/queue.rs stores.
use tgin.Prelude.{
  ℕ, ◌+◌, ◌<◌, ◌≡◌, refl, Option, none, some, ◌==◌, if◌then◌else◌, arith, Option-cases, inl, inr,
}
use tgin.Prelude.Eq.{nat_eq, string_eq}
use tgin.Prelude.Int.{ℤ}
use tgin.Prelude.Words.{word, wrapping_add, wrapping_add_exact}
use tgin.Containers.OrderedSet
use tgin.Containers.OrderedMap
use tgin.Containers.OrderedMap.{sum}
use tgin.Containers.KeyMap
use tgin.Containers.KeyMap.{set_of}
use tgin.Queue.Types.{Inner, Entry}
use tgin.Queue.Inner.{eligible_of, link}
use tgin.Queue.Ops.{store}
use tgin.Queue.Inv.{
  Base, Coherent, OneEntry, HoldsLeases, IsEligible, is_key, free_weight, size_weight, leased_size,
  leased_of,
}
use tgin.Queue.Inv.Rekey.{
  KeyedChange, KeylessChange, Rekeyed, eligible_of-frame, rekeyed-Rekeyed, Rekeyed-frame,
  Rekeyed-HoldsLeases,
}

module _ {T : Type 0} (q : Inner T) (size : ℕ) (item : T) (key : Option ℕ) (ack_id : ℤ) (b : Base q)
    (seqs_left : q.next_seq + 1 < word) (room : sum size_weight q.entries + size < word) where
  abbrev pub stored : Entry T
  stored = record { item = item; key = key; ack_id = ack_id; size = size; lease = none }

  start : Inner T
  start = record q {
    next_seq = wrapping_add q.next_seq 1;
    entries = OrderedMap.insert q.next_seq stored q.entries;
    bytes = wrapping_add q.bytes size;
  }

  pub changed : Inner T
  changed = link q.next_seq key start

  absent : OrderedMap.get q.next_seq q.entries ≡ none
  absent = b.fresh q.next_seq (omega arith)

  pub changed_frame :
      (changed.entries ≡ OrderedMap.insert q.next_seq stored q.entries)
      × (changed.leases ≡ q.leases)
      × (changed.available ≡ OrderedSet.insert q.next_seq q.available)
      × (changed.next_seq ≡ q.next_seq + 1)
      × (changed.bytes ≡ q.bytes + size)
      × (changed.leased_bytes ≡ q.leased_bytes)
      × (changed.leased_per_key ≡ q.leased_per_key)
      × (changed.cfg ≡ q.cfg)
  unfolding changed link start
  changed_frame =
      ground (arith, b.bytes_is, wrapping_add_exact q.next_seq 1, wrapping_add_exact q.bytes size)

  pub at_changed :
      (j : ℕ)
      → OrderedMap.get j changed.entries
        ≡ (if j == q.next_seq then some stored else OrderedMap.get j q.entries)
  at_changed j = ground (arith, changed_frame, OrderedMap.get-insert j q.next_seq stored q.entries)

  sums : (w : Entry T → ℕ) → sum w changed.entries ≡ sum w q.entries + w stored
  sums w = ground (
    arith,
    changed_frame,
    absent,
    OrderedMap.sum-insert w q.next_seq stored q.entries b.entries_sorted,
  )

  changed_queued :
      (k : ℕ)
      → set_of k changed.queued_per_key ≡ (
          if is_key k key
          then OrderedSet.insert q.next_seq (set_of k q.queued_per_key)
          else set_of k q.queued_per_key)
  unfolding changed link start
  changed_queued k = elim (Option-cases key) [
    | inl keyless ↦ ground arith
    | inr (i, keyed) ↦ ground (arith, KeyMap.set_of-add_member k i q.next_seq q.queued_per_key)
  ]

  changed-Base : Base changed
  changed-Base = record {
    entries_sorted = ground (
      arith,
      changed_frame,
      OrderedMap.insert-IsSorted q.next_seq stored q.entries b.entries_sorted,
    );
    fresh = λ j h. ground (arith, b.fresh j, at_changed j, changed_frame);
    available_sorted = ground (
      arith,
      changed_frame,
      OrderedSet.insert-IsSorted q.next_seq q.available b.available_sorted,
    );
    available_is = λ j. ground (
      arith,
      changed_frame,
      b.available_is j,
      at_changed j,
      OrderedSet.contains-insert j q.next_seq q.available,
    );
    available_count = ground (
      arith,
      changed_frame,
      b.available_count,
      b.available_is q.next_seq,
      absent,
      sums free_weight,
      OrderedSet.length-insert q.next_seq 0 q.available b.available_sorted,
    );
    bytes_is = ground (arith, changed_frame, b.bytes_is, sums size_weight);
    leased_bytes_is = ground (arith, changed_frame, b.leased_bytes_is, sums leased_size);
    queued_sorted = λ k. ground (
      arith,
      changed_queued k,
      b.queued_sorted k,
      OrderedSet.insert-IsSorted q.next_seq (set_of k q.queued_per_key) (b.queued_sorted k),
    );
    queued_is = λ k j. ground (
      arith,
      changed_queued k,
      at_changed j,
      absent,
      b.queued_is k j,
      b.queued_is k q.next_seq,
      OrderedSet.contains-insert j q.next_seq (set_of k q.queued_per_key),
    );
    counts_are = λ k. ground (arith, changed_frame, b.counts_are k, sums (leased_of k));
  }

  changed-KeyedChange : (k : ℕ) → key ≡ some k → KeyedChange q changed q.next_seq k
  unfolding changed link start
  changed-KeyedChange k keyed = record {
    same_eligible = ground arith;
    others = λ j h. ground (arith, at_changed j);
    keyed_before = ground (arith, absent);
    keyed_after = ground (arith, at_changed q.next_seq);
    other_keys = λ i h.
        eligible_of-frame q changed i (ground (arith, changed_frame))
          (ground (arith, changed_queued i));
  }

  changed-KeylessChange : key ≡ none → IsEligible q → KeylessChange q changed q.next_seq
  unfolding changed link start
  changed-KeylessChange keyless i = record {
    sorted = ground (arith, OrderedSet.insert-IsSorted q.next_seq q.eligible i.eligible_sorted);
    eligible_at = λ j.
        ground (arith, at_changed q.next_seq, OrderedSet.contains-insert j q.next_seq q.eligible);
    others = λ j h. ground (arith, at_changed j);
    keyless = ground (arith, at_changed q.next_seq);
    all_keys = λ k.
        eligible_of-frame q changed k (ground (arith, changed_frame))
          (ground (arith, changed_queued k));
  }

  pub store-Rekeyed : IsEligible q → Rekeyed q (store size item key ack_id q) changed
  unfolding store changed start eligible_of
  store-Rekeyed i =
      rekeyed-Rekeyed q start q.next_seq key (link q.next_seq key) b i (λ k. refl) changed-Base
        (λ k keyed. changed-KeyedChange k keyed) (λ keyless. changed-KeylessChange keyless i)

  stored-HoldsLeases : HoldsLeases q → HoldsLeases changed
  stored-HoldsLeases l = record {
    leases_sorted = λ h. ground (arith, changed_frame, l.leases_sorted h);
    leases_are = λ h j.
        ground
          (arith, changed_frame, l.leases_are h j, l.leases_are h q.next_seq, at_changed j, absent);
  }

  pub store-OneEntry :
      IsEligible q → OneEntry q (store size item key ack_id q) q.next_seq (some stored)
  store-OneEntry i =
      let x = store-Rekeyed i in
      record {
        at = λ j. ground (arith, Rekeyed-frame x, at_changed j);
        sums = λ w. ground (arith, Rekeyed-frame x, sums w, absent);
        same_cfg = ground (arith, Rekeyed-frame x, changed_frame);
      }

  pub store-Coherent : IsEligible q → HoldsLeases q → Coherent (store size item key ack_id q)
  store-Coherent i l =
      let x = store-Rekeyed i in
      record {
        base = x.base;
        eligible = x.eligible;
        holds = Rekeyed-HoldsLeases x (stored-HoldsLeases l);
      }

  pub store-next_seq : IsEligible q → (store size item key ack_id q).next_seq ≡ q.next_seq + 1
  store-next_seq i = ground (arith, Rekeyed-frame (store-Rekeyed i), changed_frame)
