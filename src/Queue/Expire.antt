-- ===== src/Queue/Expire.antt =====
-- `LeaseQueue::expire` of crates/tgin-runtime/src/queue.rs: what it does to each entry.
use tgin.Prelude.{
  ℕ, ◌≡◌, refl, ◌∙◌, ap, Bool, true, false, ◌&&◌, ◌||◌, Option, none, some, List, [], ◌∷◌, ◌++◌,
  ◌==◌, ==_iff, if◌then◌else◌, arith, Option-cases, inl, inr, is_empty, not, ltb,
}
use tgin.Prelude.Eq.{nat_eq, string_eq}
use tgin.Containers.OrderedSet
use tgin.Containers.OrderedMap
use tgin.Containers.KeyMap
use tgin.Containers.KeyMap.{set_of}
use tgin.Queue.Types.{LeaseQueue, Inner, Entry, HolderId}
use tgin.Queue.Inner.{requeue}
use tgin.Queue.Returns.{requeue_each, expire, keep, flatten, entry_is, is_due, notify_if}
use tgin.Queue.Inv.{Coherent, Fits}
use tgin.Queue.Inv.Requeue
use tgin.Queue.Loops.{NoMore-Fits, requeue_step}

pub contains-keep :
    (j : ℕ) (p : ℕ → Bool) (s : List ℕ)
    → OrderedSet.contains j (keep p s) ≡ (OrderedSet.contains j s && p j)
unfolding keep OrderedSet.contains
contains-keep j p [] = refl
contains-keep j p (x ∷ s) = ground (arith, contains-keep j p s, ==_iff j x, ap p {x = j} {y = x})

contains-append :
    (j : ℕ) (s t : List ℕ)
    → OrderedSet.contains j (s ++ t) ≡ (OrderedSet.contains j s || OrderedSet.contains j t)
unfolding OrderedSet.contains
contains-append j [] t = refl
contains-append j (x ∷ s) t = ground (arith, contains-append j s t)

contains-flatten :
    (j : ℕ) (h : HolderId) (m : List (HolderId × List ℕ))
    → OrderedSet.contains j (set_of h m) ≡ true
    → OrderedSet.contains j (flatten m) ≡ true
unfolding flatten KeyMap.get OrderedSet.contains
contains-flatten j h [] c = absurd (cc)
contains-flatten j h ((k, s) ∷ m) c =
    ground (arith, contains-append j s (flatten m), contains-flatten j h m)

module _ {T : Type 0} where
  abbrev pub unleased : Option (Entry T) → Option (Entry T)
  unleased none = none
  unleased (some e) = some (record e { lease = none })

  unleased_twice : (x : Option (Entry T)) → unleased (unleased x) ≡ unleased x
  unleased_twice none = refl
  unleased_twice (some e) = refl

  requeue_absent :
      (q : Inner T) (s j : ℕ)
      → OrderedMap.get s q.entries ≡ none
      → OrderedMap.get j (requeue s q).entries ≡ OrderedMap.get j q.entries
  unfolding requeue
  requeue_absent q s j absent = rw (absent, requeue) refl

  get-requeue :
      (q : Inner T) (s j : ℕ)
      → Coherent q
      → Fits q
      → OrderedMap.get j (requeue s q).entries
        ≡ (if j == s then unleased (OrderedMap.get j q.entries) else OrderedMap.get j q.entries)
  get-requeue q s j c f = elim (Option-cases (OrderedMap.get s q.entries)) [
    | inl absent ↦
        let still : OrderedMap.get j (requeue s q).entries ≡ OrderedMap.get j q.entries =
          requeue_absent q s j absent in
        ground (arith, still, absent, ap (λ z. OrderedMap.get z q.entries) {x = j} {y = s})
    | inr (e, at) ↦
        let o = Requeue.requeue-OneEntry q s e c.base at c.eligible f in
        ground (arith, o.at j, at, ap (λ z. OrderedMap.get z q.entries) {x = j} {y = s})
  ]

  get-requeue_each :
      (seqs : List ℕ) (q : Inner T) (j : ℕ)
      → Coherent q
      → Fits q
      → OrderedMap.get j (requeue_each seqs q).entries ≡ (
          if OrderedSet.contains j seqs
          then unleased (OrderedMap.get j q.entries)
          else OrderedMap.get j q.entries)
  unfolding requeue_each OrderedSet.contains
  get-requeue_each [] q j c f = refl
  get-requeue_each (s ∷ seqs) q j c f =
      let (d, n) = requeue_step q s c f in
      ground (
        arith,
        get-requeue_each seqs (requeue s q) j d (NoMore-Fits n f),
        get-requeue q s j c f,
        unleased_twice (OrderedMap.get j q.entries),
      )

  pub notify_if-inner : (wake : Bool) (r : LeaseQueue T) → (notify_if wake r).inner ≡ r.inner
  notify_if-inner false r = refl
  notify_if-inner true r = refl

  -- What an entry is after the expiry at an instant: free, if it was leased until then or earlier.
  abbrev pub expired_at : ℕ → Option (Entry T) → Option (Entry T)
  expired_at now none = none
  expired_at now (some e) = elim e.lease [
    | none ↦ some e
    | some holding ↦ elim holding.deadline [
      | none ↦ some e
      | some deadline ↦ if ltb now deadline then some e else some (record e { lease = none })
    ]
  ]

  expired_at-is_due :
      (now : ℕ) (x : Option (Entry T))
      → expired_at now x
        ≡ (if elim x [ none ↦ false | some e ↦ is_due now e ] then unleased x else x)
  expired_at-is_due now none = refl
  expired_at-is_due now (some e) = elim (Option-cases e.lease) [
    | inl free ↦ ground (arith, free)
    | inr (holding, leased) ↦ elim (Option-cases holding.deadline) [
      | inl forever ↦ ground (arith, leased, forever)
      | inr (deadline, until) ↦ ground (arith, leased, until)
    ]
  ]

  module _ (now : ℕ) (q : LeaseQueue T) (c : Coherent q.inner) (f : Fits q.inner) where
    due : List ℕ
    due = keep (entry_is (is_due now) q.inner.entries) (flatten q.inner.leases)

    due_is : (j : ℕ) → OrderedSet.contains j due ≡ entry_is (is_due now) q.inner.entries j
    unfolding due
    due_is j =
        contains-keep j (entry_is (is_due now) q.inner.entries) (flatten q.inner.leases)
        ∙ held (OrderedMap.get j q.inner.entries) refl
      where
        held :
            (x : Option (Entry T))
            → OrderedMap.get j q.inner.entries ≡ x
            → (OrderedSet.contains j (flatten q.inner.leases)
                && entry_is (is_due now) q.inner.entries j)
              ≡ entry_is (is_due now) q.inner.entries j
        held none at = ground (arith, at)
        held (some e) at = elim (Option-cases e.lease) [
          | inl free ↦ ground (arith, at, free)
          | inr (holding, leased) ↦ ground (
            arith,
            at,
            leased,
            string_eq.eq_iff holding.holder holding.holder,
            c.holds.leases_are holding.holder j,
            contains-flatten j holding.holder q.inner.leases,
          )
        ]

    -- On a coherent queue whose totals fit, expire ends the lease of every entry whose deadline
    -- is at or before the instant, keeps those entries at their seqs, and leaves every other
    -- entry as it was.
    pub get-expire :
        (j : ℕ)
        → OrderedMap.get j (expire now q).0.inner.entries
          ≡ expired_at now (OrderedMap.get j q.inner.entries)
    unfolding expire due
    get-expire j = ground (
      arith,
      notify_if-inner (not (is_empty due)) (record q { inner = requeue_each due q.inner }),
      get-requeue_each due q.inner j c f,
      due_is j,
      expired_at-is_due now (OrderedMap.get j q.inner.entries),
    )
