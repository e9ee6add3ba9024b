-- ===== src/Queue/Inv/Requeue.antt =====
-- The indices after `requeue` of crates/tgin-runtime/src/queue.rs.
use tgin.Prelude.{
  ℕ, ◌≡◌, refl, false, none, some, ◌==◌, if◌then◌else◌, arith, Option-cases, inl, inr,
}
use tgin.Prelude.Eq.{nat_eq, string_eq}
use tgin.Containers.OrderedSet
use tgin.Containers.OrderedMap
use tgin.Containers.OrderedMap.{sum}
use tgin.Containers.KeyMap
use tgin.Containers.KeyMap.{set_of}
use tgin.Queue.Types.{Inner, Entry}
use tgin.Queue.Inner.{link, requeue, end_lease}
use tgin.Queue.Inv.{
  Base, Fits, Coherent, OneEntry, HoldsLeases, IsEligible, is_key, free_weight, size_weight,
  leased_of,
}
use tgin.Queue.Inv.End
use tgin.Queue.Inv.Rekey.{
  KeyedChange, KeylessChange, Rekeyed, eligible_of-frame, rekeyed-Rekeyed, Rekeyed-frame,
  Rekeyed-HoldsLeases,
}

module _ {T : Type 0} (q : Inner T) (s : ℕ) (e : Entry T) (b : Base q)
    (at : OrderedMap.get s q.entries ≡ some e) where
  pub ended : Inner T
  ended = End.ended q s e b at

  pub changed : Inner T
  changed = link s e.key ended

  at_changed :
      (j : ℕ)
      → OrderedMap.get j changed.entries
        ≡ (if j == s then some (End.freed q s e b at) else OrderedMap.get j q.entries)
  unfolding changed link ended
  at_changed j = ground (arith, End.at_ended q s e b at j)

  pub changed_frame :
      (changed.entries ≡ ended.entries)
      × (changed.leases ≡ ended.leases)
      × (changed.available ≡ OrderedSet.insert s q.available)
      × (changed.next_seq ≡ q.next_seq)
      × (changed.bytes ≡ q.bytes)
      × (changed.leased_bytes ≡ ended.leased_bytes)
      × (changed.leased_per_key ≡ ended.leased_per_key)
      × (changed.cfg ≡ q.cfg)
  unfolding changed link ended
  changed_frame = ground (arith, End.ended_frame q s e b at)

  changed_queued :
      (k : ℕ)
      → set_of k changed.queued_per_key ≡ (
          if is_key k e.key
          then OrderedSet.insert s (set_of k q.queued_per_key)
          else set_of k q.queued_per_key)
  unfolding changed link ended
  changed_queued k = elim (Option-cases e.key) [
    | inl keyless ↦ ground (arith, End.ended_frame q s e b at)
    | inr (key, keyed) ↦ ground (
      arith,
      End.ended_frame q s e b at,
      KeyMap.set_of-add_member k key s (End.ended q s e b at).queued_per_key,
    )
  ]

  changed-Base : Fits q → Base changed
  unfolding ended
  changed-Base f = record {
    entries_sorted = ground (arith, changed_frame, End.ended-IsSorted q s e b at);
    fresh = λ j h. ground (arith, b.fresh j, b.fresh s, at_changed j, changed_frame);
    available_sorted =
        ground (arith, changed_frame, OrderedSet.insert-IsSorted s q.available b.available_sorted);
    available_is = λ j. ground (
      arith,
      changed_frame,
      b.available_is j,
      at_changed j,
      OrderedSet.contains-insert j s q.available,
    );
    available_count = ground (
      arith,
      changed_frame,
      b.available_count,
      b.available_is s,
      End.ended_sums q s e b at free_weight,
      OrderedSet.length-insert s 0 q.available b.available_sorted,
    );
    bytes_is = ground (arith, changed_frame, b.bytes_is, End.ended_sums q s e b at size_weight);
    leased_bytes_is = ground (arith, changed_frame, End.ended_leased_bytes q s e b at f);
    queued_sorted = λ k. ground (
      arith,
      changed_queued k,
      b.queued_sorted k,
      OrderedSet.insert-IsSorted s (set_of k q.queued_per_key) (b.queued_sorted k),
    );
    queued_is = λ k j. ground (
      arith,
      changed_queued k,
      at_changed j,
      b.queued_is k j,
      OrderedSet.contains-insert j s (set_of k q.queued_per_key),
    );
    counts_are = λ k. ground (arith, changed_frame, End.ended_counts q s e b at k f);
  }

  other_counts :
      (k : ℕ)
      → Fits q
      → is_key k e.key ≡ false
      → KeyMap.get k changed.leased_per_key ≡ KeyMap.get k q.leased_per_key
  unfolding ended
  other_counts k f h = ground (
    arith,
    changed_frame,
    End.ended_counts q s e b at k f,
    b.counts_are k,
    End.ended_sums q s e b at (leased_of k),
  )

  changed-KeyedChange : (k : ℕ) → e.key ≡ some k → Fits q → KeyedChange q changed s k
  unfolding changed link ended
  changed-KeyedChange k keyed f = record {
    same_eligible = ground (arith, End.ended_frame q s e b at);
    others = λ j h. ground (arith, at_changed j);
    keyed_before = ground arith;
    keyed_after = ground (arith, at_changed s);
    other_keys = λ i h.
        eligible_of-frame q changed i (other_counts i f (ground arith))
          (ground (arith, changed_queued i));
  }

  changed-KeylessChange : e.key ≡ none → IsEligible q → Fits q → KeylessChange q changed s
  unfolding changed link ended
  changed-KeylessChange keyless i f = record {
    sorted = ground (
      arith,
      End.ended_frame q s e b at,
      OrderedSet.insert-IsSorted s q.eligible i.eligible_sorted,
    );
    eligible_at = λ j. ground (
      arith,
      End.ended_frame q s e b at,
      at_changed s,
      OrderedSet.contains-insert j s q.eligible,
    );
    others = λ j h. ground (arith, at_changed j);
    keyless = ground (arith, at_changed s);
    all_keys = λ k.
        eligible_of-frame q changed k (other_counts k f (ground arith))
          (ground (arith, changed_queued k));
  }

  pub requeue-Rekeyed : IsEligible q → Fits q → Rekeyed q (requeue s q) changed
  unfolding requeue changed ended End.ended
  requeue-Rekeyed i f =
      rw (at, requeue)
        (rekeyed-Rekeyed q q s e.key (λ r. link s e.key (end_lease s r)) b i (λ k. refl)
          (changed-Base f) (λ k keyed. changed-KeyedChange k keyed f)
          (λ keyless. changed-KeylessChange keyless i f))

  pub requeue-OneEntry :
      IsEligible q → Fits q → OneEntry q (requeue s q) s (some (record e { lease = none }))
  unfolding ended
  requeue-OneEntry i f =
      let x = requeue-Rekeyed i f in
      record {
        at = λ j. ground (arith, Rekeyed-frame x, at_changed j);
        sums = λ w. ground (arith, Rekeyed-frame x, changed_frame, End.ended_sums q s e b at w);
        same_cfg = ground (arith, Rekeyed-frame x, changed_frame);
      }

  changed-HoldsLeases : HoldsLeases q → HoldsLeases changed
  unfolding ended
  changed-HoldsLeases l =
      let m = End.ended-HoldsLeases q s e b at l in
      record {
        leases_sorted = λ h. ground (arith, changed_frame, m.leases_sorted h);
        leases_are = λ h j. ground (arith, changed_frame, m.leases_are h j);
      }

  pub requeue-Coherent : IsEligible q → HoldsLeases q → Fits q → Coherent (requeue s q)
  requeue-Coherent i l f =
      let x = requeue-Rekeyed i f in
      record {
        base = x.base;
        eligible = x.eligible;
        holds = Rekeyed-HoldsLeases x (changed-HoldsLeases l);
      }

  pub requeue-next_seq : IsEligible q → Fits q → (requeue s q).next_seq ≡ q.next_seq
  requeue-next_seq i f = ground (arith, Rekeyed-frame (requeue-Rekeyed i f), changed_frame)
