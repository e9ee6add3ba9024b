-- ===== src/Queue/Inv.antt =====
-- What the indices of a queue say of its entries. `Base` is about all of them but `eligible` and
-- `leases`, which `IsEligible` and `HoldsLeases` are about.
pub mod Rekey
pub mod Start
pub mod End
pub mod Requeue
pub mod Remove
pub mod Store
use tgin.Prelude.{
  ℕ, zero, suc, List, ◌+◌, ◌≤◌, ◌<◌, ◌^◌, ◌≡◌, Bool, false, true, not, ◌&&◌, Option, none, some,
  ◌==◌, if◌then◌else◌, length, head?, is_some,
}
use tgin.Prelude.Eq.{EqTest, nat_eq, string_eq}
use tgin.Containers.OrderedSet
use tgin.Containers.OrderedMap
use tgin.Containers.OrderedMap.{sum}
use tgin.Containers.KeyMap
use tgin.Containers.KeyMap.{set_of}
use tgin.Queue.Types.{Inner, Entry, Holding, HolderId, LeaseQueue}
use tgin.Queue.Inner.{eligible_of}

abbrev pub is_key : ℕ → Option ℕ → Bool
is_key k none = false
is_key k (some j) = k == j

abbrev pub is_holder : HolderId → Option Holding → Bool
is_holder h none = false
is_holder h (some holding) = string_eq.eq h holding.holder

abbrev pub positive : ℕ → Option ℕ
positive zero = none
positive (suc n) = some (suc n)

module _ {T : Type 0} where
  abbrev pub free : Entry T → Bool
  free e = not (is_some e.lease)

  -- Weights, for sums over the entries.
  abbrev pub free_weight : Entry T → ℕ
  free_weight e = if is_some e.lease then 0 else 1

  abbrev pub size_weight : Entry T → ℕ
  size_weight e = e.size

  abbrev pub leased_size : Entry T → ℕ
  leased_size e = if is_some e.lease then e.size else 0

  abbrev pub leased_of : ℕ → Entry T → ℕ
  leased_of k e = if is_some e.lease && is_key k e.key then 1 else 0

  -- Tests of what stands at a seq.
  abbrev pub is_free : Option (Entry T) → Bool
  is_free none = false
  is_free (some e) = free e

  abbrev pub is_free_of : ℕ → Option (Entry T) → Bool
  is_free_of k none = false
  is_free_of k (some e) = free e && is_key k e.key

  abbrev pub is_held_by : HolderId → Option (Entry T) → Bool
  is_held_by h none = false
  is_held_by h (some e) = is_holder h e.lease

  pub record Base (q : Inner T) : Type 0 where
    pub entries_sorted : OrderedMap.IsSorted q.entries
    pub fresh : (j : ℕ) → q.next_seq ≤ j → OrderedMap.get j q.entries ≡ none
    pub available_sorted : OrderedSet.IsSorted q.available
    pub available_is :
        (j : ℕ) → OrderedSet.contains j q.available ≡ is_free (OrderedMap.get j q.entries)
    pub available_count : length q.available ≡ sum free_weight q.entries
    pub bytes_is : q.bytes ≡ sum size_weight q.entries
    pub leased_bytes_is : q.leased_bytes ≡ sum leased_size q.entries
    pub queued_sorted : (k : ℕ) → OrderedSet.IsSorted (set_of k q.queued_per_key)
    pub queued_is :
        (k j : ℕ)
        → OrderedSet.contains j (set_of k q.queued_per_key)
          ≡ is_free_of k (OrderedMap.get j q.entries)
    pub counts_are :
        (k : ℕ) → KeyMap.get k q.leased_per_key ≡ positive (sum (leased_of k) q.entries)

  -- The counters do not wrap.
  pub record Fits (q : Inner T) : Type 0 where
    pub bytes_fit : sum size_weight q.entries < 2 ^ 64
    pub count_fits : length q.entries < 2 ^ 32

  pub record HoldsLeases (q : Inner T) : Type 0 where
    pub leases_sorted : (h : HolderId) → OrderedSet.IsSorted (set_of h q.leases)
    pub leases_are :
        (h : HolderId) (j : ℕ)
        → OrderedSet.contains j (set_of h q.leases) ≡ is_held_by h (OrderedMap.get j q.entries)

  -- `Ordering::PerKey` may lease an unleased entry with no key, and the lowest unleased seq of a key
  -- that no leased entry has.
  abbrev pub may_lease : Inner T → ℕ → Option (Entry T) → Bool
  may_lease q j none = false
  may_lease q j (some e) =
      free e && elim e.key [ none ↦ true | some k ↦ is_key j (eligible_of q k) ]

  pub record IsEligible (q : Inner T) : Type 0 where
    pub eligible_sorted : OrderedSet.IsSorted q.eligible
    pub eligible_is :
        (j : ℕ) → OrderedSet.contains j q.eligible ≡ may_lease q j (OrderedMap.get j q.entries)

  pub record Coherent (q : Inner T) : Type 0 where
    pub base : Base q
    pub eligible : IsEligible q
    pub holds : HoldsLeases q

  -- From `q` to `r` the entry at `s` became `x`, and no other entry changed.
  pub record OneEntry (q r : Inner T) (s : ℕ) (x : Option (Entry T)) : Type 0 where
    pub at :
        (j : ℕ) → OrderedMap.get j r.entries ≡ (if j == s then x else OrderedMap.get j q.entries)
    pub sums :
        (w : Entry T → ℕ)
        → sum w r.entries + OrderedMap.weight w (OrderedMap.get s q.entries)
          ≡ sum w q.entries + OrderedMap.weight w x
    pub same_cfg : r.cfg ≡ q.cfg

  -- `Base` and `IsEligible` do not read `leases`.
  pub with_leases-Coherent :
      (q : Inner T) (leases : List (HolderId × List ℕ))
      → Base q
      → IsEligible q
      → HoldsLeases (record q { leases = leases })
      → Coherent (record q { leases = leases })
  unfolding eligible_of
  with_leases-Coherent q leases b i l = record {
    base = record {
      entries_sorted = b.entries_sorted;
      fresh = b.fresh;
      available_sorted = b.available_sorted;
      available_is = b.available_is;
      available_count = b.available_count;
      bytes_is = b.bytes_is;
      leased_bytes_is = b.leased_bytes_is;
      queued_sorted = b.queued_sorted;
      queued_is = b.queued_is;
      counts_are = b.counts_are;
    };
    eligible = record { eligible_sorted = i.eligible_sorted; eligible_is = i.eligible_is };
    holds = l;
  }
