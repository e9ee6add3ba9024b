-- ===== src/Queue/Loops/Leasing.antt =====
-- The loop of `lease` in crates/tgin-runtime/src/queue.rs, and the indices after it.
use tgin.Prelude.{
  ℕ, suc, ◌≤◌, ◌≡◌, refl, ap, ◌∙◌, true, Option, none, some, List, [], ◌∷◌, ==_iff, if◌then◌else◌,
  arith, Option-cases, inl, inr,
}
use tgin.Prelude.Eq.{nat_eq, string_eq}
use tgin.Containers.OrderedSet
use tgin.Containers.OrderedMap
use tgin.Containers.OrderedMap.{sum, weight}
use tgin.Containers.KeyMap
use tgin.Containers.KeyMap.{set_of, add_members}
use tgin.Queue.Types.{Inner, Entry, Lease, Holding}
use tgin.Queue.Inner.{start_lease}
use tgin.Queue.Ops.{lease_each, push_lease}
use tgin.Queue.Inv.{Base, Fits, HoldsLeases, IsEligible, is_free}
use tgin.Queue.Inv.Start
use tgin.Queue.Loops.{NoMore, NoMore-refl, NoMore-trans, NoMore-OneEntry, NoMore-Fits}

module _ {T : Type 0} where
  abbrev pub mark : Holding → Option (Entry T) → Option (Entry T)
  mark h none = none
  mark h (some e) = some (record e { lease = some h })

  -- The leases of the entries at the given seqs.
  unfoldable pub snapshot : List ℕ → List (ℕ × Entry T) → List (Lease T)
  snapshot [] entries = []
  snapshot (s ∷ seqs) entries = push_lease s (OrderedMap.get s entries) (snapshot seqs entries)

  push_lease-mark :
      (s : ℕ) (h : Holding) (x : Option (Entry T)) (l : List (Lease T))
      → push_lease s (mark h x) l ≡ push_lease s x l
  push_lease-mark s h none l = refl
  push_lease-mark s h (some e) l = refl

  snapshot-same :
      (n : ℕ) (seqs : List ℕ) (m m' : List (ℕ × Entry T))
      → OrderedSet.IsAbove n seqs
      → ((j : ℕ) → n ≤ j → OrderedMap.get j m' ≡ OrderedMap.get j m)
      → snapshot seqs m' ≡ snapshot seqs m
  unfolding snapshot
  snapshot-same n [] m m' a h = refl
  snapshot-same n (s ∷ seqs) m m' a h =
      rw (h s a.0, snapshot-same (suc s) seqs m m' a.1 (λ j k. h j (omega arith)))

  pub record Leased (holding : Holding) (seqs : List ℕ) (q r : Inner T) : Type 0 where
    pub base : Base r
    pub eligible : IsEligible r
    pub no_more : NoMore q r
    pub same_leases : r.leases ≡ q.leases
    pub at :
        (j : ℕ)
        → OrderedMap.get j r.entries ≡ (
            if OrderedSet.contains j seqs
            then mark holding (OrderedMap.get j q.entries)
            else OrderedMap.get j q.entries)

  start_step :
      (holding : Holding) (s : ℕ) (e : Entry T) (q : Inner T)
      → Base q
      → IsEligible q
      → Fits q
      → OrderedMap.get s q.entries ≡ some e
      → e.lease ≡ none
      → Leased holding (s ∷ []) q (start_lease s holding.holder holding.deadline q)
  unfolding OrderedSet.contains
  start_step holding s e q b i f at unleased =
      let x = Start.start_lease-Rekeyed q s e holding b at unleased i f in
      let o = Start.start_lease-OneEntry q s e holding b at unleased i f in
      let l = Start.start_lease-leases q s e holding b at unleased i f in
      record {
        base = x.base;
        eligible = x.eligible;
        no_more = NoMore-OneEntry o (rw at (omega arith)) (rw at (omega arith)) l.1;
        same_leases = l.0;
        at = λ j.
            ground
              (arith, o.at j, ==_iff j s, at, ap (λ z. OrderedMap.get z q.entries) {x = j} {y = s});
      }

  -- `seqs` grows, and every one is an unleased entry.
  pub record AllFree (n : ℕ) (seqs : List ℕ) (q : Inner T) : Type 0 where
    pub above : OrderedSet.IsAbove n seqs
    pub free :
        (j : ℕ) → OrderedSet.contains j seqs ≡ true → is_free (OrderedMap.get j q.entries) ≡ true

  free-entry :
      (x : Option (Entry T)) → is_free x ≡ true → (e : Entry T) × (x ≡ some e) × (e.lease ≡ none)
  free-entry none h = cc
  free-entry (some e) h = elim (Option-cases e.lease) [
    | inl unleased ↦ (e, refl, unleased)
    | inr (l, leased) ↦ absurd (ground arith)
  ]

  mark-step :
      (holding : Holding) (s : ℕ) (seqs : List ℕ) (q r z : Inner T)
      → OrderedSet.IsAbove (suc s) seqs
      → Leased holding (s ∷ []) q r
      → Leased holding seqs r z
      → Leased holding (s ∷ seqs) q z
  unfolding OrderedSet.contains
  mark-step holding s seqs q r z a x y = record {
    base = y.base;
    eligible = y.eligible;
    no_more = NoMore-trans x.no_more y.no_more;
    same_leases = y.same_leases ∙ x.same_leases;
    at = λ j. ground (arith, x.at j, y.at j, OrderedSet.contains_below (suc s) j seqs a);
  }

  AllFree-tail :
      (holding : Holding) (n s : ℕ) (seqs : List ℕ) (q r : Inner T)
      → AllFree n (s ∷ seqs) q
      → Leased holding (s ∷ []) q r
      → AllFree (suc s) seqs r
  unfolding OrderedSet.contains
  AllFree-tail holding n s seqs q r a x = record {
    above = a.above.1;
    free = λ j h.
        ground (arith, x.at j, a.free j, h, OrderedSet.contains_below (suc s) j seqs a.above.1);
  }

  snapshot_step :
      (holding : Holding) (s : ℕ) (seqs : List ℕ) (q r : Inner T)
      → OrderedSet.IsAbove (suc s) seqs
      → Leased holding (s ∷ []) q r
      → (l : List (Lease T)) → l ≡ snapshot seqs r.entries
      → push_lease s (OrderedMap.get s r.entries) l ≡ snapshot (s ∷ seqs) q.entries
  unfolding snapshot OrderedSet.contains
  snapshot_step holding s seqs q r a x l e =
      let marked : OrderedMap.get s r.entries ≡ mark holding (OrderedMap.get s q.entries) =
        ground (arith, x.at s) in
      rw (marked, push_lease-mark)
        (ap (push_lease s (OrderedMap.get s q.entries))
          (e ∙ snapshot-same (suc s) seqs q.entries r.entries a (λ j h. ground (arith, x.at j))))

  pub lease_each-Leased :
      (n : ℕ) (seqs : List ℕ) (holding : Holding) (q : Inner T)
      → Base q
      → IsEligible q
      → Fits q
      → AllFree n seqs q
      → Leased holding seqs q (lease_each seqs holding.holder holding.deadline q).0
        × ((lease_each seqs holding.holder holding.deadline q).1 ≡ snapshot seqs q.entries)
  unfolding lease_each snapshot OrderedSet.contains
  lease_each-Leased n [] holding q b i f a = (
    record { base = b; eligible = i; no_more = NoMore-refl q; same_leases = refl; at = λ j. refl },
    refl,
  )
  lease_each-Leased n (s ∷ seqs) holding q b i f a =
      let (e, at, unleased) = free-entry (OrderedMap.get s q.entries) (a.free s (ground arith)) in
      let r = start_lease s holding.holder holding.deadline q in
      let x : Leased holding (s ∷ []) q r = start_step holding s e q b i f at unleased in
      let (y, l) =
        lease_each-Leased (suc s) seqs holding r x.base x.eligible (NoMore-Fits x.no_more f)
          (AllFree-tail holding n s seqs q r a x) in
      (
        mark-step holding s seqs q r (lease_each seqs holding.holder holding.deadline r).0 a.above.1
            x y,
        snapshot_step holding s seqs q r a.above.1 x
            (lease_each seqs holding.holder holding.deadline r).1 l,
      )

  -- The holder's set gets the seqs that were leased.
  pub Leased-HoldsLeases :
      (n : ℕ) (seqs : List ℕ) (holding : Holding) (q r : Inner T)
      → HoldsLeases q
      → AllFree n seqs q
      → Leased holding seqs q r
      → HoldsLeases (record r { leases = add_members holding.holder seqs r.leases })
  Leased-HoldsLeases n seqs holding q r l a x = record {
    leases_sorted = λ h. ground (
      arith,
      x.same_leases,
      l.leases_sorted h,
      KeyMap.set_of-add_members h holding.holder seqs q.leases,
      OrderedSet.extend-IsSorted seqs (set_of holding.holder q.leases)
          (l.leases_sorted holding.holder),
    );
    leases_are = λ h j. ground (
      arith,
      x.same_leases,
      l.leases_are h j,
      x.at j,
      a.free j,
      string_eq.eq_iff h holding.holder,
      string_eq.eq_iff holding.holder h,
      KeyMap.set_of-add_members h holding.holder seqs q.leases,
      OrderedSet.contains-extend j seqs (set_of holding.holder q.leases),
    );
  }
