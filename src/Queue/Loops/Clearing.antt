-- ===== src/Queue/Loops/Clearing.antt =====
-- The loops of `held` and `purge` in crates/tgin-runtime/src/queue.rs, and the indices after them.
use tgin.Prelude.{
  ℕ, suc, ◌+◌, ◌≤◌, ◌<◌, ◌≡◌, refl, ap, ◌∙◌, sym, true, Option, none, some, List, [], ◌∷◌, ◌==◌,
  ==_iff, if◌then◌else◌, length, arith, Option-cases, Bool-cases, inl, inr,
}
use tgin.Prelude.Eq.{nat_eq, string_eq}
use tgin.Prelude.Int.{ℤ, ltb_ℤ}
use tgin.Prelude.Words.{word, wrapping_sub, wrapping_sub_exact}
use tgin.Containers.OrderedSet
use tgin.Containers.OrderedMap
use tgin.Containers.OrderedMap.{sum, weight}
use tgin.Queue.Types.{Inner, Entry, HolderId}
use tgin.Queue.Inner.{eligible_of}
use tgin.Queue.Returns.{held_each, wanted, renew, renewed, purge_each}
use tgin.Queue.Inv.{
  Coherent, is_free, is_free_of, is_held_by, may_lease, positive, free_weight, size_weight,
  leased_size, leased_of,
}
use tgin.Queue.Loops.{one, NoMore, NoMore-refl, NoMore-trans}

module _ {T : Type 0} where
  abbrev with_entries : Inner T → List (ℕ × Entry T) → Inner T
  with_entries q m = record q { entries = m }

  module _ (q : Inner T) (c : Coherent q) (s : ℕ) (e : Entry T) (deadline : Option ℕ)
      (at : OrderedMap.get s q.entries ≡ some e) where
    new : List (ℕ × Entry T)
    new = OrderedMap.insert s (renewed deadline e) q.entries

    at_new :
        (j : ℕ)
        → OrderedMap.get j new
          ≡ (if j == s then some (renewed deadline e) else OrderedMap.get j q.entries)
    unfolding new
    at_new j = OrderedMap.get-insert j s (renewed deadline e) q.entries

    at_s : (j : ℕ) → (j == s) ≡ true → OrderedMap.get j q.entries ≡ some e
    at_s j h = ap (λ z. OrderedMap.get z q.entries) ((==_iff j s).0 h) ∙ at

    same_sum : (w : Entry T → ℕ) → w (renewed deadline e) ≡ w e → sum w new ≡ sum w q.entries
    unfolding new
    same_sum w h = ground (
      arith,
      h,
      at,
      OrderedMap.sum-insert w s (renewed deadline e) q.entries c.base.entries_sorted,
    )

    same_free : (j : ℕ) → is_free (OrderedMap.get j new) ≡ is_free (OrderedMap.get j q.entries)
    same_free j = ground (arith, at_new j, at_s j)

    same_free_of :
        (k j : ℕ) → is_free_of k (OrderedMap.get j new) ≡ is_free_of k (OrderedMap.get j q.entries)
    same_free_of k j = ground (arith, at_new j, at_s j)

    same_held_by :
        (h : HolderId) (j : ℕ)
        → is_held_by h (OrderedMap.get j new) ≡ is_held_by h (OrderedMap.get j q.entries)
    same_held_by h j = ground (arith, at_new j, at_s j)

    same_may_lease :
        (j : ℕ)
        → may_lease (with_entries q new) j (OrderedMap.get j new)
          ≡ may_lease q j (OrderedMap.get j q.entries)
    unfolding eligible_of
    same_may_lease j = ground (arith, at_new j, at_s j)

    renewed-Coherent : Coherent (with_entries q new)
    unfolding new
    renewed-Coherent = record {
      base = record {
        entries_sorted =
            OrderedMap.insert-IsSorted s (renewed deadline e) q.entries c.base.entries_sorted;
        fresh = λ j h. ground (arith, c.base.fresh j, at_new j, at_s j);
        available_sorted = c.base.available_sorted;
        available_is = λ j. c.base.available_is j ∙ sym (same_free j);
        available_count = c.base.available_count ∙ sym (same_sum free_weight (ground arith));
        bytes_is = c.base.bytes_is ∙ sym (same_sum size_weight (ground arith));
        leased_bytes_is = c.base.leased_bytes_is ∙ sym (same_sum leased_size (ground arith));
        queued_sorted = c.base.queued_sorted;
        queued_is = λ k j. c.base.queued_is k j ∙ sym (same_free_of k j);
        counts_are =
            λ k. c.base.counts_are k ∙ ap positive (sym (same_sum (leased_of k) (ground arith)));
      };
      eligible = record {
        eligible_sorted = c.eligible.eligible_sorted;
        eligible_is = λ j. c.eligible.eligible_is j ∙ sym (same_may_lease j);
      };
      holds = record {
        leases_sorted = c.holds.leases_sorted;
        leases_are = λ h j. c.holds.leases_are h j ∙ sym (same_held_by h j);
      };
    }

    renewed-NoMore : NoMore q (with_entries q new)
    unfolding new
    renewed-NoMore = record {
      bytes_le = omega (arith, same_sum size_weight (ground arith));
      count_le =
          omega
            (arith, same_sum one refl, OrderedMap.length-sum q.entries, OrderedMap.length-sum new);
      same_cfg = refl;
      same_seq = refl;
    }

  renew_step :
      (q : Inner T) (s : ℕ) (min_ack_id : ℤ) (deadline : Option ℕ)
      → Coherent q
      → let r =
          with_entries q
            (renew s deadline (wanted min_ack_id (OrderedMap.get s q.entries)) q.entries) in
        Coherent r × NoMore q r
  unfolding new
  renew_step q s min_ack_id deadline c = go (OrderedMap.get s q.entries) refl
    where
      go :
          (x : Option (Entry T))
          → OrderedMap.get s q.entries ≡ x
          → Coherent (with_entries q (renew s deadline (wanted min_ack_id x) q.entries))
            × NoMore q (with_entries q (renew s deadline (wanted min_ack_id x) q.entries))
      go none at = (c, NoMore-refl q)
      go (some e) at = elim (Bool-cases (ltb_ℤ e.ack_id min_ack_id)) [
        | inl low ↦ rw low (c, NoMore-refl q)
        | inr wants ↦
            rw wants (renewed-Coherent q c s e deadline at, renewed-NoMore q c s e deadline at)
      ]

  pub held_each_step :
      (seqs : List ℕ) (q : Inner T) (min_ack_id : ℤ) (deadline : Option ℕ)
      → Coherent q
      → let r = with_entries q (held_each seqs min_ack_id deadline q.entries).0 in
        Coherent r × NoMore q r
  unfolding held_each
  held_each_step [] q min_ack_id deadline c = (c, NoMore-refl q)
  held_each_step (s ∷ seqs) q min_ack_id deadline c =
      let r =
        with_entries q
          (renew s deadline (wanted min_ack_id (OrderedMap.get s q.entries)) q.entries) in
      let (d, n) = renew_step q s min_ack_id deadline c in
      let (e, m) = held_each_step seqs r min_ack_id deadline d in (e, NoMore-trans n m)

  -- What `purge` leaves of the entries: the seqs are gone, and what weighs nothing when unleased is
  -- as before.
  pub record Purged (seqs : List ℕ) (m r : List (ℕ × Entry T)) (bytes : ℕ) : Type 0 where
    pub sorted : OrderedMap.IsSorted r
    pub at :
        (j : ℕ)
        → OrderedMap.get j r ≡ (if OrderedSet.contains j seqs then none else OrderedMap.get j m)
    pub bytes_are : bytes ≡ sum size_weight r
    pub sums : (w : Entry T → ℕ) → ((e : Entry T) → e.lease ≡ none → w e ≡ 0) → sum w r ≡ sum w m
    pub bytes_le : sum size_weight r ≤ sum size_weight m
    pub count_le : length r ≤ length m

  free-weight :
      (w : Entry T → ℕ) (x : Option (Entry T))
      → ((e : Entry T) → e.lease ≡ none → w e ≡ 0)
      → is_free x ≡ true
      → weight w x ≡ 0
  free-weight w none h f = refl
  free-weight w (some e) h f = h e (ground arith)

  -- One removal, and the rest of the loop.
  Purged-cons :
      (s : ℕ) (seqs : List ℕ) (m : List (ℕ × Entry T)) (e : Entry T) {r : List (ℕ × Entry T)}
      {bytes : ℕ}
      → OrderedMap.IsSorted m
      → OrderedMap.get s m ≡ some e
      → is_free (OrderedMap.get s m) ≡ true
      → Purged seqs (OrderedMap.remove s m) r bytes
      → Purged (s ∷ seqs) m r bytes
  unfolding OrderedSet.contains
  Purged-cons s seqs m e {r} sorted at free p = record {
    sorted = p.sorted;
    at = λ j. ground (arith, p.at j, OrderedMap.get-remove j s m sorted);
    bytes_are = p.bytes_are;
    sums = λ w h.
        omega (
          arith,
          p.sums w h,
          OrderedMap.sum-remove w s m,
          free-weight w (OrderedMap.get s m) h free,
        );
    bytes_le = omega (arith, p.bytes_le, OrderedMap.sum-remove size_weight s m);
    count_le = omega (
      arith,
      p.count_le,
      OrderedMap.sum-remove one s m,
      OrderedMap.length-sum m,
      OrderedMap.length-sum (OrderedMap.remove s m),
    );
  }

  size_left :
      (s : ℕ) (m : List (ℕ × Entry T)) (e : Entry T)
      → OrderedMap.get s m ≡ some e
      → sum size_weight (OrderedMap.remove s m) + e.size ≡ sum size_weight m
  size_left s m e at = ground (arith, at, OrderedMap.sum-remove size_weight s m)

  pub purge_each-Purged :
      (n : ℕ) (seqs : List ℕ) (m : List (ℕ × Entry T)) (bytes : ℕ)
      → OrderedSet.IsAbove n seqs
      → ((j : ℕ) → OrderedSet.contains j seqs ≡ true → is_free (OrderedMap.get j m) ≡ true)
      → OrderedMap.IsSorted m
      → bytes ≡ sum size_weight m
      → sum size_weight m < word
      → Purged seqs m (purge_each seqs m bytes).0 (purge_each seqs m bytes).1
  unfolding purge_each OrderedSet.contains
  purge_each-Purged n [] m bytes a free sorted b fits = record {
    sorted = sorted;
    at = λ j. refl;
    bytes_are = b;
    sums = λ w h. refl;
    bytes_le = omega arith;
    count_le = omega arith;
  }
  purge_each-Purged n (s ∷ seqs) m bytes a free sorted b fits =
      elim (Option-cases (OrderedMap.get s m)) [
        | inl absent ↦ absurd (ground (arith, free s))
        | inr (e, at) ↦
            rw (at, purge_each)
              (Purged-cons s seqs m e sorted at (free s (ground arith)) (
                purge_each-Purged (suc s) seqs (OrderedMap.remove s m) (wrapping_sub bytes e.size)
                  a.1
                  (λ j h. ground (
                    arith,
                    free j,
                    h,
                    OrderedMap.get-remove j s m sorted,
                    OrderedSet.contains_below (suc s) j seqs a.1,
                  ))
                  (OrderedMap.remove-IsSorted s m sorted)
                  (omega (arith, b, size_left s m e at, wrapping_sub_exact bytes e.size))
                  (omega (arith, size_left s m e at))))
      ]
