-- ===== src/Queue/Loops.antt =====
-- The loops under the lock in crates/tgin-runtime/src/queue.rs, a round of which changes one entry.
pub mod Leasing
pub mod Clearing
use tgin.Prelude.{
  ℕ, ◌+◌, ◌≤◌, ◌<◌, ◌^◌, ◌≡◌, refl, ap, ◌∙◌, Bool, true, false, ◌||◌, Option, none, some, List, [],
  ◌∷◌, ◌==◌, if◌then◌else◌, length, arith, Option-cases, inl, inr, is_some,
}
use tgin.Prelude.Eq.{EqTest, nat_eq, string_eq}
use tgin.Containers.OrderedMap
use tgin.Containers.OrderedMap.{sum, weight}
use tgin.Queue.Types.{Inner, Entry, QueueConfig}
use tgin.Queue.Inner.{requeue, remove}
use tgin.Queue.Returns.{requeue_each, remove_each}
use tgin.Queue.Inv.{Base, Fits, HoldsLeases, IsEligible, Coherent, OneEntry, size_weight}
use tgin.Queue.Inv.Requeue
use tgin.Queue.Inv.Remove

module _ {T : Type 0} where
  abbrev pub one : Entry T → ℕ
  one _ = 1

  -- What the totals, the configuration and the next seq are after steps that add nothing.
  pub record NoMore (q r : Inner T) : Type 0 where
    pub bytes_le : sum size_weight r.entries ≤ sum size_weight q.entries
    pub count_le : length r.entries ≤ length q.entries
    pub same_cfg : r.cfg ≡ q.cfg
    pub same_seq : r.next_seq ≡ q.next_seq

  pub NoMore-refl : (q : Inner T) → NoMore q q
  NoMore-refl q = record {
    bytes_le = omega arith;
    count_le = omega arith;
    same_cfg = refl;
    same_seq = refl;
  }

  pub NoMore-trans : {q r s : Inner T} → NoMore q r → NoMore r s → NoMore q s
  NoMore-trans n m = record {
    bytes_le = omega (arith, n.bytes_le, m.bytes_le);
    count_le = omega (arith, n.count_le, m.count_le);
    same_cfg = m.same_cfg ∙ n.same_cfg;
    same_seq = m.same_seq ∙ n.same_seq;
  }

  pub NoMore-OneEntry :
      {q r : Inner T} {s : ℕ} {x : Option (Entry T)}
      → OneEntry q r s x
      → weight size_weight x ≤ weight size_weight (OrderedMap.get s q.entries)
      → weight one x ≤ weight one (OrderedMap.get s q.entries)
      → r.next_seq ≡ q.next_seq
      → NoMore q r
  NoMore-OneEntry {q} {r} o h k n = record {
    bytes_le = omega (arith, o.sums size_weight);
    count_le =
        omega (arith, o.sums one, OrderedMap.length-sum q.entries, OrderedMap.length-sum r.entries);
    same_cfg = o.same_cfg;
    same_seq = n;
  }

  pub NoMore-Fits : {q r : Inner T} → NoMore q r → Fits q → Fits r
  NoMore-Fits n f = record {
    bytes_fit = omega (arith, n.bytes_le, f.bytes_fit);
    count_fits = omega (arith, n.count_le, f.count_fits);
  }

  -- A step on a seq that has no entry does nothing.
  pub requeue_step :
      (q : Inner T) (s : ℕ) → Coherent q → Fits q → Coherent (requeue s q) × NoMore q (requeue s q)
  unfolding requeue
  requeue_step q s c f = elim (Option-cases (OrderedMap.get s q.entries)) [
    | inl absent ↦ rw (absent, requeue) (c, NoMore-refl q)
    | inr (e, at) ↦ (
      Requeue.requeue-Coherent q s e c.base at c.eligible c.holds f,
      NoMore-OneEntry (Requeue.requeue-OneEntry q s e c.base at c.eligible f) (rw at (omega arith))
          (rw at (omega arith)) (Requeue.requeue-next_seq q s e c.base at c.eligible f),
    )
  ]

  pub remove_step :
      (q : Inner T) (s : ℕ)
      → Coherent q
      → Fits q
      → Coherent (remove s q).0 × NoMore q (remove s q).0
  unfolding remove
  remove_step q s c f = elim (Option-cases (OrderedMap.get s q.entries)) [
    | inl absent ↦ rw (absent, remove) (c, NoMore-refl q)
    | inr (e, at) ↦ (
      Remove.remove-Coherent q s e c.base at c.eligible c.holds f,
      NoMore-OneEntry (Remove.remove-OneEntry q s e c.base at c.eligible f) (omega arith)
          (omega arith) (Remove.remove-next_seq q s e c.base at c.eligible f),
    )
  ]

  pub requeue_each_step :
      (seqs : List ℕ) (q : Inner T)
      → Coherent q
      → Fits q
      → Coherent (requeue_each seqs q) × NoMore q (requeue_each seqs q)
  unfolding requeue_each
  requeue_each_step [] q c f = (c, NoMore-refl q)
  requeue_each_step (s ∷ seqs) q c f =
      let (d, n) = requeue_step q s c f in
      let (e, m) = requeue_each_step seqs (requeue s q) d (NoMore-Fits n f) in (e, NoMore-trans n m)

  pub remove_each_step :
      (seqs : List ℕ) (q : Inner T)
      → Coherent q
      → Fits q
      → Coherent (remove_each seqs q).0 × NoMore q (remove_each seqs q).0
  unfolding remove_each
  remove_each_step [] q c f = (c, NoMore-refl q)
  remove_each_step (s ∷ seqs) q c f =
      let (d, n) = remove_step q s c f in
      let (e, m) = remove_each_step seqs (remove s q).0 d (NoMore-Fits n f) in (e, NoMore-trans n m)
