-- ===== src/Queue/Inner.antt =====
-- `impl Inner<T>` of crates/tgin-runtime/src/queue.rs: the steps under the queue's lock.
use tgin.Prelude.{
  ℕ, ◌-◌, Bool, true, false, not, Option, none, some, List, leb, ltb, ◌==◌, if◌then◌else◌, length,
  head?, is_some, Result, ok, err,
}
use tgin.Prelude.Eq.{nat_eq, string_eq}
use tgin.Prelude.Words.{saturating_add, wrapping_add, wrapping_sub}
use tgin.Containers.OrderedSet
use tgin.Containers.OrderedMap
use tgin.Containers.KeyMap
use tgin.Containers.KeyMap.{set_of, count_of, add_member, remove_member, increment, decrement}
use tgin.Queue.Types.{Inner, Entry, Lease, HolderId, Full, items_full, bytes_full}

-- `before != after`
abbrev pub differ : Option ℕ → Option ℕ → Bool
differ none none = false
differ none (some b) = true
differ (some a) none = true
differ (some a) (some b) = not (a == b)

abbrev pub without : Option ℕ → List ℕ → List ℕ
without none s = s
without (some x) s = OrderedSet.remove x s

abbrev pub with_added : Option ℕ → List ℕ → List ℕ
with_added none s = s
with_added (some x) s = OrderedSet.insert x s

abbrev pub count_lease : Option ℕ → List (ℕ × ℕ) → List (ℕ × ℕ)
count_lease none m = m
count_lease (some key) m = increment key m

abbrev pub uncount_lease : Option ℕ → List (ℕ × ℕ) → List (ℕ × ℕ)
uncount_lease none m = m
uncount_lease (some key) m = decrement key m

module _ {T : Type 0} where
  abbrev pub to_lease : Entry T → ℕ → Lease T
  to_lease e seq = record { seq = seq; ack_id = e.ack_id; item = e.item }

  unfoldable pub leased : Inner T → ℕ
  leased q = length q.entries - length q.available

  unfoldable pub room : Inner T → ℕ × ℕ → ℕ → ℕ → ℕ → Result Full (Unit {0})
  unfolding saturating_add
  room q reserved items bytes size =
      if leb q.cfg.capacity (saturating_add items reserved.0)
      then err items_full
      else if ltb q.cfg.capacity_bytes (saturating_add (saturating_add bytes reserved.1) size)
      then err bytes_full
      else ok tt

  unfoldable pub holds : Inner T → HolderId → ℕ → Bool
  holds q holder seq = elim (KeyMap.get holder q.leases) [
    | none ↦ false
    | some seqs ↦ OrderedSet.contains seq seqs
  ]

  unfoldable pub eligible_of : Inner T → ℕ → Option ℕ
  eligible_of q key =
      if is_some (KeyMap.get key q.leased_per_key)
      then none
      else elim (KeyMap.get key q.queued_per_key) [ none ↦ none | some seqs ↦ head? seqs ]

  -- The end of `rekeyed`: brings `eligible` up to date for one key.
  unfoldable pub refresh : Option ℕ → Option ℕ → Inner T → Inner T
  refresh before after q =
      if differ before after
      then record q { eligible = with_added after (without before q.eligible) }
      else q

  unfoldable pub rekeyed : Option ℕ → (Inner T → Inner T) → Inner T → Inner T
  unfolding refresh eligible_of
  rekeyed none change q = change q
  rekeyed (some key) change q = refresh (eligible_of q key) (eligible_of (change q) key) (change q)

  unfoldable pub link : ℕ → Option ℕ → Inner T → Inner T
  link seq (some key) q = record q {
    available = OrderedSet.insert seq q.available;
    queued_per_key = add_member key seq q.queued_per_key;
  }
  link seq none q = record q {
    available = OrderedSet.insert seq q.available;
    eligible = OrderedSet.insert seq q.eligible;
  }

  unfoldable pub unlink : ℕ → Option ℕ → Inner T → Inner T
  unlink seq (some key) q =
      if OrderedSet.contains seq q.available
      then record q {
        available = OrderedSet.remove seq q.available;
        queued_per_key = remove_member key seq q.queued_per_key;
      }
      else q
  unlink seq none q =
      if OrderedSet.contains seq q.available
      then record q {
        available = OrderedSet.remove seq q.available;
        eligible = OrderedSet.remove seq q.eligible;
      }
      else q

  -- The closure that `start_lease` hands to `rekeyed`.
  unfoldable pub take_out : ℕ → Option ℕ → Inner T → Inner T
  unfolding unlink
  take_out seq key q =
      let r = unlink seq key q in record r { leased_per_key = count_lease key r.leased_per_key }

  unfoldable pub start_lease : ℕ → HolderId → Option ℕ → Inner T → Inner T
  unfolding rekeyed take_out
  start_lease seq holder deadline q = elim (OrderedMap.get seq q.entries) [
    | none ↦ q
    | some entry ↦ rekeyed entry.key (take_out seq entry.key) (record q {
      entries =
          OrderedMap.insert seq
            (record entry { lease = some (record { holder = holder; deadline = deadline }) })
            q.entries;
      leased_bytes = wrapping_add q.leased_bytes entry.size;
    })
  ]

  unfoldable pub end_lease : ℕ → Inner T → Inner T
  end_lease seq q = elim (OrderedMap.get seq q.entries) [
    | none ↦ q
    | some entry ↦ elim entry.lease [
      | none ↦ q
      | some holding ↦ record q {
        entries = OrderedMap.insert seq (record entry { lease = none }) q.entries;
        leased_bytes = wrapping_sub q.leased_bytes entry.size;
        leased_per_key = uncount_lease entry.key q.leased_per_key;
        leases = remove_member holding.holder seq q.leases;
      }
    ]
  ]

  unfoldable pub requeue : ℕ → Inner T → Inner T
  unfolding rekeyed link end_lease
  requeue seq q = elim (OrderedMap.get seq q.entries) [
    | none ↦ q
    | some entry ↦ rekeyed entry.key (λ r. link seq entry.key (end_lease seq r)) q
  ]

  -- The closure that `remove` hands to `rekeyed`.
  unfoldable pub delete : ℕ → Option ℕ → Inner T → Inner T
  unfolding unlink end_lease
  delete seq key q =
      let r = unlink seq key (end_lease seq q) in
      record r { entries = OrderedMap.remove seq r.entries }

  -- The queue without the entry, and the entry, its lease ended.
  unfoldable pub remove : ℕ → Inner T → Inner T × Option (Entry T)
  unfolding rekeyed delete
  remove seq q = elim (OrderedMap.get seq q.entries) [
    | none ↦ (q, none)
    | some entry ↦
        let r = rekeyed entry.key (delete seq entry.key) q in
        (record r { bytes = wrapping_sub r.bytes entry.size }, some (record entry { lease = none }))
  ]
