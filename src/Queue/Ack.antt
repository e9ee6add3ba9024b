-- ===== src/Queue/Ack.antt =====
-- `LeaseQueue::ack_where` of crates/tgin-runtime/src/queue.rs, the common part of `ack_below` and
-- `ack_all`: what it does to each entry.
use tgin.Prelude.{
  ℕ, ◌≡◌, refl, ap, Bool, false, ◌&&◌, Option, none, some, List, [], ◌∷◌, ◌==◌, if◌then◌else◌,
  arith, Option-cases, inl, inr,
}
use tgin.Prelude.Eq.{nat_eq, string_eq}
use tgin.Containers.OrderedSet
use tgin.Containers.OrderedMap
use tgin.Containers.KeyMap
use tgin.Containers.KeyMap.{set_of}
use tgin.Queue.Types.{LeaseQueue, Inner, Entry, HolderId}
use tgin.Queue.Inner.{remove}
use tgin.Queue.Returns.{remove_each, ack_where, keep, entry_is, is_per_key}
use tgin.Queue.Inv.{Coherent, Fits, is_held_by}
use tgin.Queue.Inv.Remove
use tgin.Queue.Loops.{NoMore-Fits, remove_step}
use tgin.Queue.Expire.{contains-keep, notify_if-inner}

module _ {T : Type 0} where
  remove_absent :
      (q : Inner T) (s j : ℕ)
      → OrderedMap.get s q.entries ≡ none
      → OrderedMap.get j (remove s q).0.entries ≡ OrderedMap.get j q.entries
  unfolding remove
  remove_absent q s j absent = rw (absent, remove) refl

  get-remove :
      (q : Inner T) (s j : ℕ)
      → Coherent q
      → Fits q
      → OrderedMap.get j (remove s q).0.entries
        ≡ (if j == s then none else OrderedMap.get j q.entries)
  get-remove q s j c f = elim (Option-cases (OrderedMap.get s q.entries)) [
    | inl absent ↦
        let still = remove_absent q s j absent in
        ground (arith, still, absent, ap (λ z. OrderedMap.get z q.entries) {x = j} {y = s})
    | inr (e, at) ↦ (Remove.remove-OneEntry q s e c.base at c.eligible f).at j
  ]

  get-remove_each :
      (seqs : List ℕ) (q : Inner T) (j : ℕ)
      → Coherent q
      → Fits q
      → OrderedMap.get j (remove_each seqs q).0.entries
        ≡ (if OrderedSet.contains j seqs then none else OrderedMap.get j q.entries)
  unfolding remove_each OrderedSet.contains
  get-remove_each [] q j c f = refl
  get-remove_each (s ∷ seqs) q j c f =
      let (d, n) = remove_step q s c f in
      ground
        (arith, get-remove_each seqs (remove s q).0 j d (NoMore-Fits n f), get-remove q s j c f)

  abbrev pub is_match : (Entry T → Bool) → Option (Entry T) → Bool
  is_match pred none = false
  is_match pred (some e) = pred e

  -- What an entry is after the holder acknowledged what matches.
  abbrev pub acked_at : HolderId → (Entry T → Bool) → Option (Entry T) → Option (Entry T)
  acked_at holder pred x = if is_held_by holder x && is_match pred x then none else x

  entry_is-match :
      (pred : Entry T → Bool) (m : List (ℕ × Entry T)) (j : ℕ)
      → entry_is pred m j ≡ is_match pred (OrderedMap.get j m)
  entry_is-match pred m j = elim (Option-cases (OrderedMap.get j m)) [
    | inl absent ↦ ground (arith, absent)
    | inr (e, at) ↦ ground (arith, at)
  ]

  module _ (holder : HolderId) (pred : Entry T → Bool) (q : LeaseQueue T) (c : Coherent q.inner)
      (f : Fits q.inner) where
    -- On a coherent queue whose totals fit, ack_where takes out every entry that the holder has
    -- leased and that matches, and leaves every other entry as it was.
    pub get-ack_where :
        (j : ℕ)
        → OrderedMap.get j (ack_where holder pred q).0.inner.entries
          ≡ acked_at holder pred (OrderedMap.get j q.inner.entries)
    unfolding ack_where OrderedSet.contains
    get-ack_where j = elim (Option-cases (KeyMap.get holder q.inner.leases)) [
      | inl absent ↦ rw (absent, ack_where) (ground (arith, c.holds.leases_are holder j, absent))
      | inr (seqs, present) ↦
          let acked = keep (entry_is pred q.inner.entries) seqs in
          let r = remove_each acked q.inner in
          rw (present, ack_where)
            (ground (
              arith,
              notify_if-inner (r.2 && is_per_key r.0.cfg.ordering) (record q { inner = r.0 }),
              get-remove_each acked q.inner j c f,
              contains-keep j (entry_is pred q.inner.entries) seqs,
              entry_is-match pred q.inner.entries j,
              c.holds.leases_are holder j,
              present,
            ))
    ]
