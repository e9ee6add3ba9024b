-- ===== src/Queue/Returns.antt =====
-- The rest of `impl LeaseQueue<T>`: what renews, acks, returns and clears. A callback `f` that a
-- method makes on removed items after the unlocking is the list of those items.
use tgin.Prelude.{
  ℕ, Bool, true, false, not, ◌&&◌, ◌||◌, Option, none, some, List, [], ◌∷◌, ◌++◌, map, leb,
  if◌then◌else◌, length, is_some, is_empty,
}
use tgin.Prelude.Eq.{nat_eq, string_eq}
use tgin.Prelude.Int.{ℤ, ltb_ℤ}
use tgin.Prelude.Words.{wrapping_sub}
use tgin.Time.{checked_add}
use tgin.Containers.OrderedMap
use tgin.Containers.KeyMap
use tgin.Queue.Types.{
  LeaseQueue, Inner, Entry, Lease, HolderId, QueueConfig, QueueStats, Ordering, any_order, per_key,
}
use tgin.Queue.Inner.{leased, holds, requeue, remove}
use tgin.Queue.Ops.{with_inner, notify, push_lease}

-- `iter().copied().filter(p).collect()`
unfoldable pub keep {ℓ} : {A : Type ℓ} → (A → Bool) → List A → List A
keep p [] = []
keep p (x ∷ xs) = let rest = keep p xs in if p x then x ∷ rest else rest

-- The leased seqs, holder by holder.
unfoldable pub flatten : List (HolderId × List ℕ) → List ℕ
flatten [] = []
flatten ((holder, seqs) ∷ m) = seqs ++ flatten m

abbrev pub is_per_key : Ordering → Bool
is_per_key any_order = false
is_per_key per_key = true

abbrev pub notify_if : {T : Type 0} → Bool → LeaseQueue T → LeaseQueue T
notify_if wake q = if wake then notify q else q

module _ {T : Type 0} where
  -- The deadline of a lease that is held anew.
  abbrev pub renewed : Option ℕ → Entry T → Entry T
  renewed deadline entry = elim entry.lease [
    | none ↦ entry
    | some holding ↦ record entry { lease = some (record holding { deadline = deadline }) }
  ]

  -- The entry at a seq, unless its `ack_id` is too low.
  abbrev pub wanted : ℤ → Option (Entry T) → Option (Entry T)
  wanted min_ack_id none = none
  wanted min_ack_id (some e) = if ltb_ℤ e.ack_id min_ack_id then none else some e

  abbrev pub renew : ℕ → Option ℕ → Option (Entry T) → List (ℕ × Entry T) → List (ℕ × Entry T)
  renew seq deadline none entries = entries
  renew seq deadline (some e) entries = OrderedMap.insert seq (renewed deadline e) entries

  -- The loop of `held`, over the holder's seqs.
  unfoldable pub held_each :
      List ℕ → ℤ → Option ℕ → List (ℕ × Entry T) → List (ℕ × Entry T) × List (Lease T)
  held_each [] min_ack_id deadline entries = (entries, [])
  held_each (seq ∷ seqs) min_ack_id deadline entries =
      let entry = wanted min_ack_id (OrderedMap.get seq entries) in
      let (rest, held) = held_each seqs min_ack_id deadline (renew seq deadline entry entries) in
      (rest, push_lease seq entry held)

  unfoldable pub held : ℕ → HolderId → ℤ → ℕ → LeaseQueue T → LeaseQueue T × List (Lease T)
  unfolding held_each
  held last holder min_ack_id now q = elim (KeyMap.get holder q.inner.leases) [
    | none ↦ (q, [])
    | some seqs ↦
        let deadline = checked_add last now q.inner.cfg.lease_timeout in
        let (entries, leases) = held_each seqs min_ack_id deadline q.inner.entries in
        (with_inner q (record q.inner { entries = entries }), leases)
  ]

  abbrev pub push_item : Option (Entry T) → List T → List T
  push_item none items = items
  push_item (some e) items = e.item ∷ items

  abbrev pub frees_key : Option (Entry T) → Bool
  frees_key none = false
  frees_key (some e) = is_some e.key

  -- The loop of `ack_where`: the removed items, and whether one had a key.
  unfoldable pub remove_each : List ℕ → Inner T → Inner T × List T × Bool
  remove_each [] i = (i, [], false)
  remove_each (seq ∷ seqs) i =
      let (i', removed) = remove seq i in
      let (r, items, freed_key) = remove_each seqs i' in
      (r, push_item removed items, frees_key removed || freed_key)

  abbrev pub entry_is : (Entry T → Bool) → List (ℕ × Entry T) → ℕ → Bool
  entry_is pred entries seq = elim (OrderedMap.get seq entries) [ none ↦ false | some e ↦ pred e ]

  -- The queue, how many leases matched, and the removed items.
  unfoldable pub ack_where : HolderId → (Entry T → Bool) → LeaseQueue T → LeaseQueue T × ℕ × List T
  unfolding remove_each keep
  ack_where holder pred q = elim (KeyMap.get holder q.inner.leases) [
    | none ↦ (q, 0, [])
    | some seqs ↦
        let acked = keep (entry_is pred q.inner.entries) seqs in
        let (i, removed, freed_key) = remove_each acked q.inner in
        (notify_if (freed_key && is_per_key i.cfg.ordering) (with_inner q i), length acked, removed)
  ]

  -- `ack_below_each` and `ack_all_each`; `ack_below` and `ack_all` drop the items.
  unfoldable pub ack_below_each : HolderId → ℤ → LeaseQueue T → LeaseQueue T × ℕ × List T
  unfolding ack_where
  ack_below_each holder ack_id q = ack_where holder (λ e. ltb_ℤ e.ack_id ack_id) q

  unfoldable pub ack_all_each : HolderId → LeaseQueue T → LeaseQueue T × ℕ × List T
  unfolding ack_where
  ack_all_each holder q = ack_where holder (λ _. true) q

  unfoldable pub ack_seq : HolderId → ℕ → LeaseQueue T → LeaseQueue T × Bool
  ack_seq holder seq q =
      if not (holds q.inner holder seq)
      then (q, false)
      else let (i, removed) = remove seq q.inner in
        (notify_if (is_per_key i.cfg.ordering && frees_key removed) (with_inner q i), true)

  unfoldable pub release_seq : HolderId → ℕ → LeaseQueue T → LeaseQueue T × Bool
  release_seq holder seq q =
      if not (holds q.inner holder seq)
      then (q, false)
      else (notify (with_inner q (requeue seq q.inner)), true)

  unfoldable pub requeue_each : List ℕ → Inner T → Inner T
  requeue_each [] i = i
  requeue_each (seq ∷ seqs) i = requeue_each seqs (requeue seq i)

  -- Whether the entry has a lease whose deadline is at or before `now`.
  abbrev pub is_due : ℕ → Entry T → Bool
  is_due now e = elim e.lease [
    | none ↦ false
    | some holding ↦ elim holding.deadline [ none ↦ false | some deadline ↦ leb deadline now ]
  ]

  unfoldable pub expire : ℕ → LeaseQueue T → LeaseQueue T × ℕ
  unfolding requeue_each keep flatten
  expire now q =
      let expired = keep (entry_is (is_due now) q.inner.entries) (flatten q.inner.leases) in
      (
        notify_if (not (is_empty expired)) (with_inner q (requeue_each expired q.inner)),
        length expired,
      )

  unfoldable pub stats : LeaseQueue T → QueueStats
  unfolding leased
  stats q = record {
    available = length q.inner.available;
    leased = leased q.inner;
    reserved = q.reserved_items;
    bytes = q.inner.bytes;
  }

  -- The loop of `purge`, over what was available.
  unfoldable pub purge_each : List ℕ → List (ℕ × Entry T) → ℕ → List (ℕ × Entry T) × ℕ
  purge_each [] entries bytes = (entries, bytes)
  purge_each (seq ∷ seqs) entries bytes = elim (OrderedMap.get seq entries) [
    | none ↦ purge_each seqs entries bytes
    | some entry ↦ purge_each seqs (OrderedMap.remove seq entries) (wrapping_sub bytes entry.size)
  ]

  unfoldable pub purge : LeaseQueue T → LeaseQueue T × ℕ
  unfolding purge_each
  purge q =
      let i = q.inner in
      let (entries, bytes) = purge_each i.available i.entries i.bytes in
      (
        with_inner q (record i {
          available = [];
          eligible = [];
          queued_per_key = [];
          entries = entries;
          bytes = bytes;
        }),
        length i.available,
      )

  unfoldable pub count_where : (T → Bool) → LeaseQueue T → ℕ
  unfolding keep
  count_where pred q = length (keep (λ (e : ℕ × Entry T). pred e.1.item) q.inner.entries)

  unfoldable pub purge_where : (T → Bool) → LeaseQueue T → LeaseQueue T × ℕ
  unfolding remove_each keep
  purge_where pred q =
      let i = q.inner in
      let matched = keep (entry_is (λ e. pred e.item) i.entries) i.available in
      (with_inner q (remove_each matched i).0, length matched)

  unfoldable pub drain_all : LeaseQueue T → LeaseQueue T × List T
  drain_all q = (
    with_inner q (record q.inner {
      available = [];
      eligible = [];
      queued_per_key = [];
      leases = [];
      leased_per_key = [];
      bytes = 0;
      leased_bytes = 0;
      entries = [];
    }),
    map (λ (e : ℕ × Entry T). e.1.item) q.inner.entries,
  )

  unfoldable pub set_config : QueueConfig → LeaseQueue T → LeaseQueue T
  set_config cfg q = notify (with_inner q (record q.inner { cfg = cfg }))
