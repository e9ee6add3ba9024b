-- ===== src/Queue/Inv/End.antt =====
-- The indices after `end_lease` of crates/tgin-runtime/src/queue.rs, before the entry is
-- linked or removed.
use tgin.Prelude.{
  ℕ, ◌+◌, ◌-◌, ◌≤◌, ◌≡◌, none, some, ◌==◌, if◌then◌else◌, length, arith, Option-cases, inl, inr,
}
use tgin.Prelude.Eq.{nat_eq, string_eq}
use tgin.Prelude.Words.{wrapping_sub_exact}
use tgin.Containers.OrderedSet
use tgin.Containers.OrderedMap
use tgin.Containers.OrderedMap.{sum}
use tgin.Containers.KeyMap
use tgin.Containers.KeyMap.{set_of}
use tgin.Queue.Types.{Inner, Entry}
use tgin.Queue.Inner.{end_lease}
use tgin.Queue.Inv.{Base, Fits, HoldsLeases, positive, size_weight, leased_size, leased_of}

module _ {T : Type 0} (q : Inner T) (s : ℕ) (e : Entry T) (b : Base q)
    (at : OrderedMap.get s q.entries ≡ some e) where
  abbrev pub freed : Entry T
  freed = record e { lease = none }

  unfoldable pub ended : Inner T
  ended = end_lease s q

  pub ended_frame :
      (ended.cfg ≡ q.cfg)
      × (ended.available ≡ q.available)
      × (ended.eligible ≡ q.eligible)
      × (ended.queued_per_key ≡ q.queued_per_key)
      × (ended.next_seq ≡ q.next_seq)
      × (ended.bytes ≡ q.bytes)
  unfolding ended end_lease
  ended_frame = ground arith

  pub at_ended :
      (j : ℕ)
      → OrderedMap.get j ended.entries ≡ (if j == s then some freed else OrderedMap.get j q.entries)
  unfolding ended end_lease
  at_ended j = ground (arith, OrderedMap.get-insert j s freed q.entries)

  pub ended-IsSorted : OrderedMap.IsSorted ended.entries
  unfolding ended end_lease
  ended-IsSorted =
      ground
        (arith, b.entries_sorted, OrderedMap.insert-IsSorted s freed q.entries b.entries_sorted)

  pub ended_sums : (w : Entry T → ℕ) → sum w ended.entries + w e ≡ sum w q.entries + w freed
  unfolding ended end_lease
  ended_sums w = ground (arith, OrderedMap.sum-insert w s freed q.entries b.entries_sorted)

  weigh_one : (w : Entry T → ℕ) → w e ≤ sum w q.entries
  weigh_one w = ground (arith, OrderedMap.weight-le-sum w s q.entries)

  count_le : (k : ℕ) → sum (leased_of k) q.entries ≤ length q.entries
  count_le k = ground (
    arith,
    OrderedMap.length-sum q.entries,
    OrderedMap.sum_mono (leased_of k) (λ _. 1) q.entries (λ x. ground arith),
  )

  pub ended_leased_bytes : Fits q → ended.leased_bytes ≡ sum leased_size ended.entries
  unfolding ended end_lease
  ended_leased_bytes f = ground (
    arith,
    b.leased_bytes_is,
    ended_sums leased_size,
    weigh_one leased_size,
    OrderedMap.sum_mono leased_size size_weight q.entries (λ x. ground arith),
    f.bytes_fit,
    wrapping_sub_exact q.leased_bytes e.size,
  )

  pub ended_counts :
      (k : ℕ)
      → Fits q
      → KeyMap.get k ended.leased_per_key ≡ positive (sum (leased_of k) ended.entries)
  unfolding ended end_lease
  ended_counts k f = elim (Option-cases e.lease) [
    | inl unleased ↦ ground (arith, b.counts_are k, ended_sums (leased_of k))
    | inr (holding, leased) ↦ elim (Option-cases e.key) [
      | inl keyless ↦ ground (arith, b.counts_are k, ended_sums (leased_of k))
      | inr (key, keyed) ↦ ground (
        arith,
        b.counts_are k,
        b.counts_are key,
        ended_sums (leased_of k),
        weigh_one (leased_of key),
        count_le key,
        f.count_fits,
        KeyMap.get-decrement k key (sum (leased_of key) q.entries - 1) q.leased_per_key,
      )
    ]
  ]

  pub ended-HoldsLeases : HoldsLeases q → HoldsLeases ended
  unfolding ended end_lease
  ended-HoldsLeases l = record {
    leases_sorted = λ h. elim (Option-cases e.lease) [
      | inl unleased ↦ ground (arith, l.leases_sorted h)
      | inr (holding, leased) ↦ ground (
        arith,
        l.leases_sorted h,
        l.leases_sorted holding.holder,
        KeyMap.set_of-remove_member h holding.holder s q.leases,
        OrderedSet.remove-IsSorted s (set_of holding.holder q.leases),
      )
    ];
    leases_are = λ h j. elim (Option-cases e.lease) [
      | inl unleased ↦ ground (arith, l.leases_are h j, at_ended j)
      | inr (holding, leased) ↦ ground (
        arith,
        l.leases_are h j,
        at_ended j,
        string_eq.eq_iff h holding.holder,
        string_eq.eq_iff holding.holder h,
        KeyMap.set_of-remove_member h holding.holder s q.leases,
        OrderedSet.contains-remove j s (set_of holding.holder q.leases)
            (l.leases_sorted holding.holder),
      )
    ];
  }
