-- ===== src/Queue/Inv/Remove.antt =====
-- The indices after `remove` of crates/tgin-runtime/src/queue.rs.
use tgin.Prelude.{
  ℕ, ◌+◌, ◌≡◌, refl, ap, false, ◌&&◌, Option, none, some, ◌==◌, if◌then◌else◌, arith, Option-cases,
  inl, inr,
}
use tgin.Prelude.Eq.{nat_eq, string_eq}
use tgin.Prelude.Words.{wrapping_sub, wrapping_sub_exact}
use tgin.Containers.OrderedSet
use tgin.Containers.OrderedMap
use tgin.Containers.OrderedMap.{sum}
use tgin.Containers.KeyMap
use tgin.Containers.KeyMap.{set_of}
use tgin.Queue.Types.{Inner, Entry}
use tgin.Queue.Inner.{delete, unlink, rekeyed, remove}
use tgin.Queue.Inv.{
  Base, Fits, Coherent, OneEntry, HoldsLeases, IsEligible, is_free, is_key, free_weight,
  size_weight, leased_size, leased_of,
}
use tgin.Queue.Inv.End
use tgin.Queue.Inv.Rekey.{
  KeyedChange, KeylessChange, Rekeyed, eligible_of-frame, rekeyed-Rekeyed, Rekeyed-frame,
  Rekeyed-HoldsLeases,
}

lower_rekeyed :
    {T : Type 0} (key : Option ℕ) (d : Inner T → Inner T) (q : Inner T) (n : ℕ)
    → record (rekeyed key d q) { bytes = wrapping_sub (rekeyed key d q).bytes n }
      ≡ rekeyed key (λ r. record (d r) { bytes = wrapping_sub (d r).bytes n }) q
unfolding rekeyed
lower_rekeyed none d q n = refl
lower_rekeyed (some k) d q n = ground arith

module _ {T : Type 0} (q : Inner T) (s : ℕ) (e : Entry T) (b : Base q)
    (at : OrderedMap.get s q.entries ≡ some e) where
  pub ended : Inner T
  ended = End.ended q s e b at

  -- `remove` lowers the bytes after `rekeyed`, which does not read them: it might as well before.
  lowered : Inner T → Inner T
  lowered r = record (delete s e.key r) { bytes = wrapping_sub (delete s e.key r).bytes e.size }

  pub changed : Inner T
  changed = lowered q

  remove_eq : remove s q ≡ (rekeyed e.key lowered q, some (End.freed q s e b at))
  unfolding remove lowered
  remove_eq =
      rw (at, remove)
        (ap (λ r. (r, some (End.freed q s e b at))) (lower_rekeyed e.key (delete s e.key) q e.size))

  pub remove_entry : (remove s q).1 ≡ some (End.freed q s e b at)
  remove_entry = ap (λ r. r.1) remove_eq

  is_available : OrderedSet.contains s q.available ≡ is_free (some e)
  is_available = ground (arith, b.available_is s)

  at_changed :
      (j : ℕ)
      → OrderedMap.get j changed.entries ≡ (if j == s then none else OrderedMap.get j q.entries)
  unfolding changed lowered delete unlink End.ended
  at_changed j = ground (
    arith,
    End.at_ended q s e b at j,
    OrderedMap.get-remove j s (End.ended q s e b at).entries (End.ended-IsSorted q s e b at),
  )

  pub changed_frame :
      (changed.entries ≡ OrderedMap.remove s ended.entries)
      × (changed.leases ≡ ended.leases)
      × (changed.available
          ≡ (if is_free (some e) then OrderedSet.remove s q.available else q.available))
      × (changed.next_seq ≡ q.next_seq)
      × (changed.bytes ≡ wrapping_sub q.bytes e.size)
      × (changed.leased_bytes ≡ ended.leased_bytes)
      × (changed.leased_per_key ≡ ended.leased_per_key)
      × (changed.cfg ≡ q.cfg)
  unfolding changed lowered delete unlink ended End.ended
  changed_frame = ground (arith, is_available, End.ended_frame q s e b at)

  changed_queued :
      (k : ℕ)
      → set_of k changed.queued_per_key ≡ (
          if is_key k e.key && is_free (some e)
          then OrderedSet.remove s (set_of k q.queued_per_key)
          else set_of k q.queued_per_key)
  unfolding changed lowered delete unlink ended End.ended
  changed_queued k = elim (Option-cases e.key) [
    | inl keyless ↦ ground (arith, is_available, End.ended_frame q s e b at)
    | inr (key, keyed) ↦ ground (
      arith,
      is_available,
      End.ended_frame q s e b at,
      KeyMap.set_of-remove_member k key s (End.ended q s e b at).queued_per_key,
    )
  ]

  changed_sums : (w : Entry T → ℕ) → sum w changed.entries + w e ≡ sum w q.entries
  unfolding ended
  changed_sums w = ground (
    arith,
    changed_frame,
    End.ended_sums q s e b at w,
    End.at_ended q s e b at s,
    OrderedMap.sum-remove w s (End.ended q s e b at).entries,
  )

  changed-Base : Fits q → Base changed
  unfolding ended
  changed-Base f = record {
    entries_sorted = ground (
      arith,
      changed_frame,
      OrderedMap.remove-IsSorted s (End.ended q s e b at).entries (End.ended-IsSorted q s e b at),
    );
    fresh = λ j h. ground (arith, b.fresh j, at_changed j, changed_frame);
    available_sorted = ground (
      arith,
      changed_frame,
      b.available_sorted,
      OrderedSet.remove-IsSorted s q.available b.available_sorted,
    );
    available_is = λ j. ground (
      arith,
      changed_frame,
      is_available,
      b.available_is j,
      at_changed j,
      OrderedSet.contains-remove j s q.available b.available_sorted,
    );
    available_count = ground (
      arith,
      changed_frame,
      b.available_count,
      is_available,
      changed_sums free_weight,
      OrderedSet.length-remove s q.available,
    );
    bytes_is = ground (
      arith,
      changed_frame,
      b.bytes_is,
      changed_sums size_weight,
      f.bytes_fit,
      wrapping_sub_exact q.bytes e.size,
    );
    leased_bytes_is = ground (
      arith,
      changed_frame,
      End.ended_leased_bytes q s e b at f,
      End.ended_sums q s e b at leased_size,
      changed_sums leased_size,
    );
    queued_sorted = λ k. ground (
      arith,
      changed_queued k,
      b.queued_sorted k,
      OrderedSet.remove-IsSorted s (set_of k q.queued_per_key) (b.queued_sorted k),
    );
    queued_is = λ k j. ground (
      arith,
      changed_queued k,
      at_changed j,
      b.queued_is k j,
      b.queued_is k s,
      OrderedSet.contains-remove j s (set_of k q.queued_per_key) (b.queued_sorted k),
    );
    counts_are = λ k. ground (
      arith,
      changed_frame,
      End.ended_counts q s e b at k f,
      End.ended_sums q s e b at (leased_of k),
      changed_sums (leased_of k),
    );
  }

  other_counts :
      (k : ℕ)
      → Fits q
      → is_key k e.key ≡ false
      → KeyMap.get k changed.leased_per_key ≡ KeyMap.get k q.leased_per_key
  unfolding ended
  other_counts k f h = ground (
    arith,
    changed_frame,
    End.ended_counts q s e b at k f,
    b.counts_are k,
    End.ended_sums q s e b at (leased_of k),
  )

  changed-KeyedChange : (k : ℕ) → e.key ≡ some k → Fits q → KeyedChange q changed s k
  unfolding changed lowered delete unlink ended End.ended
  changed-KeyedChange k keyed f = record {
    same_eligible = ground (arith, is_available, End.ended_frame q s e b at);
    others = λ j h. ground (arith, at_changed j);
    keyed_before = ground arith;
    keyed_after = ground (arith, at_changed s);
    other_keys = λ i h.
        eligible_of-frame q changed i (other_counts i f (ground arith))
          (ground (arith, changed_queued i));
  }

  changed-KeylessChange : e.key ≡ none → IsEligible q → Fits q → KeylessChange q changed s
  unfolding changed lowered delete unlink ended End.ended
  changed-KeylessChange keyless i f = record {
    sorted = ground (
      arith,
      is_available,
      End.ended_frame q s e b at,
      i.eligible_sorted,
      OrderedSet.remove-IsSorted s q.eligible i.eligible_sorted,
    );
    eligible_at = λ j. ground (
      arith,
      is_available,
      End.ended_frame q s e b at,
      at_changed s,
      i.eligible_is s,
      OrderedSet.contains-remove j s q.eligible i.eligible_sorted,
    );
    others = λ j h. ground (arith, at_changed j);
    keyless = ground (arith, at_changed s);
    all_keys = λ k.
        eligible_of-frame q changed k (other_counts k f (ground arith))
          (ground (arith, changed_queued k));
  }

  pub remove-Rekeyed : IsEligible q → Fits q → Rekeyed q (remove s q).0 changed
  unfolding changed
  remove-Rekeyed i f = rw remove_eq (
      rekeyed-Rekeyed q q s e.key lowered b i (λ k. refl) (changed-Base f)
        (λ k keyed. changed-KeyedChange k keyed f) (λ keyless. changed-KeylessChange keyless i f))

  pub remove-OneEntry : IsEligible q → Fits q → OneEntry q (remove s q).0 s none
  remove-OneEntry i f =
      let x = remove-Rekeyed i f in
      record {
        at = λ j. ground (arith, Rekeyed-frame x, at_changed j);
        sums = λ w. ground (arith, Rekeyed-frame x, changed_sums w);
        same_cfg = ground (arith, Rekeyed-frame x, changed_frame);
      }

  changed-HoldsLeases : HoldsLeases q → HoldsLeases changed
  unfolding ended
  changed-HoldsLeases l =
      let m = End.ended-HoldsLeases q s e b at l in
      record {
        leases_sorted = λ h. ground (arith, changed_frame, m.leases_sorted h);
        leases_are = λ h j.
            ground
              (arith, changed_frame, m.leases_are h j, End.at_ended q s e b at j, at_changed j);
      }

  pub remove-Coherent : IsEligible q → HoldsLeases q → Fits q → Coherent (remove s q).0
  remove-Coherent i l f =
      let x = remove-Rekeyed i f in
      record {
        base = x.base;
        eligible = x.eligible;
        holds = Rekeyed-HoldsLeases x (changed-HoldsLeases l);
      }

  pub remove-next_seq : IsEligible q → Fits q → (remove s q).0.next_seq ≡ q.next_seq
  remove-next_seq i f = ground (arith, Rekeyed-frame (remove-Rekeyed i f), changed_frame)
