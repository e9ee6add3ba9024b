-- ===== src/Queue/World/Safety.antt =====
-- The invariant `Sound` of the queue of crates/tgin-runtime/src/queue.rs, call by call.
use tgin.Prelude.{
  ℕ, ◌+◌, ◌<◌, ◌^◌, ◌≡◌, refl, sym, ap, subst, ◌∙◌, true, Option, none, some, List, [], ◌∷◌, ◌++◌,
  ◌==◌, length, arith, Result, ok, err,
}
use tgin.Prelude.Int.{ℤ}
use tgin.Prelude.Eq.{nat_eq, string_eq}
use tgin.Prelude.Words.{word, u64_max, wrapping_sub_exact}
use tgin.Containers.OrderedSet
use tgin.Containers.OrderedMap
use tgin.Containers.OrderedMap.{sum}
use tgin.Containers.KeyMap
use tgin.Queue.Types.{LeaseQueue, Inner, Entry, QueueConfig, Permit, Full}
use tgin.Queue.Inner.{eligible_of}
use tgin.Queue.Ops.{new, try_reserve, commit, cancel, drop_permit, store}
use tgin.Queue.Inv.{Fits, OneEntry, size_weight}
use tgin.Queue.Inv.Store
use tgin.Queue.Loops.{one}
use tgin.Queue.Reserve.Spec.{Limits, Granted, Reserves, try_reserve-Reserves}
use tgin.Queue.Methods
use tgin.Queue.Methods.{Kept}
use tgin.Queue.World.{
  sizes, granted_by_all, sizes-out, owner-out, length-out, Within, Sound, Step, reserved, refused,
  committed, cancelled, leased, reread, acked, acked_seq, released, expired, purged, purged_where,
  drained, configured, Reach, here, next,
}

-- The totals after one more entry.
sums_after :
    {T : Type 0} (i : Inner T) (size : ℕ) (item : T) (key : Option ℕ) (ack_id : ℤ) {e : Entry T}
    → e.size ≡ size
    → OneEntry i (store size item key ack_id i) i.next_seq (some e)
    → OrderedMap.get i.next_seq i.entries ≡ none
    → (length (store size item key ack_id i).entries ≡ length i.entries + 1)
      × (sum size_weight (store size item key ack_id i).entries ≡ sum size_weight i.entries + size)
sums_after i size item key ack_id {e} same x n = (
  ground (
    arith,
    n,
    x.sums one,
    OrderedMap.length-sum i.entries,
    OrderedMap.length-sum (store size item key ack_id i).entries,
  ),
  ground (arith, n, x.sums size_weight),
)

module _ {T : Type 0} (most_items most_bytes : ℕ) (items_fit : most_items < 2 ^ 32)
    (bytes_fit : most_bytes < u64_max) where
  pub Sound-Fits :
      (q : LeaseQueue T) (ps : List Permit) → Sound most_items most_bytes q ps → Fits q.inner
  Sound-Fits q ps s = record {
    bytes_fit = omega (arith, s.bytes_kept, bytes_fit);
    count_fits = omega (arith, s.items_kept, items_fit);
  }

  -- A method that adds nothing and leaves the configuration.
  Kept-Sound :
      (q r : LeaseQueue T) (ps : List Permit) {cfg : QueueConfig}
      → Sound most_items most_bytes q ps
      → Within most_items most_bytes cfg
      → Kept q cfg r
      → Sound most_items most_bytes r ps
  Kept-Sound q r ps s cfg k = record {
    coherent = k.coherent;
    cfg_within = subst (Within most_items most_bytes) (sym k.cfg_is) cfg;
    items_are = k.same_items ∙ s.items_are;
    bytes_are = k.same_bytes ∙ s.bytes_are;
    owned = ap (λ o. granted_by_all o ps) k.same_owner ∙ s.owned;
    items_kept = omega (arith, k.count_le, s.items_kept);
    bytes_kept = omega (arith, k.bytes_le, s.bytes_kept);
  }

  pub Sound-Limits :
      (q : LeaseQueue T) (ps : List Permit) → Sound most_items most_bytes q ps → Limits q.inner.cfg
  Sound-Limits q ps s = record {
    items_limit = omega (arith, s.cfg_within.items_within, items_fit);
    bytes_limit = omega (arith, s.cfg_within.bytes_within, bytes_fit);
  }

  reserve-promise :
      (q r : LeaseQueue T) (ps : List Permit) (size : ℕ) (x : Result Full Permit)
      → Sound most_items most_bytes q ps
      → try_reserve q size ≡ some (r, x)
      → Reserves q size (some (r, x))
  reserve-promise q r ps size x s e =
      subst (Reserves q size) e
        (try_reserve-Reserves q size s.coherent (Sound-Fits q ps s) (Sound-Limits q ps s))

  reserved-Sound :
      (q r : LeaseQueue T) (ps : List Permit) (size : ℕ) (permit : Permit)
      → Sound most_items most_bytes q ps
      → Granted q size r permit
      → Sound most_items most_bytes r (permit ∷ ps)
  unfolding sizes granted_by_all
  reserved-Sound q r ps size permit s g = record {
    coherent = g.evicted_oldest.coherent;
    cfg_within =
        subst (Within most_items most_bytes) (sym g.evicted_oldest.no_more.same_cfg) s.cfg_within;
    items_are = omega (arith, g.one_more, s.items_are);
    bytes_are = omega (arith, g.more_bytes, g.permit_size, s.bytes_are);
    owned = ground (arith, g.same_owner, g.permit_owner, s.owned);
    items_kept = omega (arith, g.within_items, g.one_more, s.items_are, s.cfg_within.items_within);
    bytes_kept = omega (
      arith, g.within_bytes, g.more_bytes, g.permit_size, s.bytes_are, s.cfg_within.bytes_within,
      g.evicted_oldest.coherent.base.bytes_is,
    );
  }

  -- Without a permit, the counters are those of the others.
  dropped :
      (q : LeaseQueue T) (before : List Permit) (permit : Permit) (after : List Permit)
      → Sound most_items most_bytes q (before ++ permit ∷ after)
      → ((drop_permit permit q).reserved_items ≡ length (before ++ after))
        × ((drop_permit permit q).reserved_bytes ≡ sizes (before ++ after))
        × ((permit.granted_by == q.reservations) ≡ true)
        × (granted_by_all q.reservations (before ++ after) ≡ true)
  unfolding drop_permit
  dropped q before permit after s =
      let (o, os) = owner-out q.reservations before permit after s.owned in
      (
        wrapping_sub_exact q.reserved_items 1
              (omega (arith, s.items_are, length-out before permit after))
              (omega (arith, s.items_are, s.items_kept, items_fit))
            ∙ omega (arith, s.items_are, length-out before permit after),
        wrapping_sub_exact q.reserved_bytes permit.size
              (omega (arith, s.bytes_are, sizes-out before permit after))
              (omega (arith, s.bytes_are, s.bytes_kept, bytes_fit))
            ∙ omega (arith, s.bytes_are, sizes-out before permit after),
        o,
        os,
      )

  cancelled-Sound :
      (q : LeaseQueue T) (before : List Permit) (permit : Permit) (after : List Permit)
      → Sound most_items most_bytes q (before ++ permit ∷ after)
      → Sound most_items most_bytes (cancel permit q) (before ++ after)
  unfolding cancel drop_permit
  cancelled-Sound q before permit after s =
      let (items, bytes, o, os) = dropped q before permit after s in
      rw (o, cancel)
        (record {
          coherent = s.coherent;
          cfg_within = s.cfg_within;
          items_are = items;
          bytes_are = bytes;
          owned = os;
          items_kept = omega (arith, s.items_kept, length-out before permit after);
          bytes_kept = omega (arith, s.bytes_kept, sizes-out before permit after);
        })

  committed-Sound :
      (q : LeaseQueue T) (before : List Permit) (permit : Permit) (after : List Permit) (item : T)
      (key : Option ℕ) (ack_id : ℤ)
      → q.inner.next_seq + 1 < word
      → Sound most_items most_bytes q (before ++ permit ∷ after)
      → Sound most_items most_bytes (commit permit item key ack_id q).0 (before ++ after)
  unfolding commit drop_permit
  committed-Sound q before permit after item key ack_id left s =
      let (items, bytes, o, os) = dropped q before permit after s in
      let i = q.inner in
      let space : sum size_weight i.entries + permit.size < word =
        omega (arith, s.bytes_kept, sizes-out before permit after, bytes_fit) in
      let x =
        Store.store-OneEntry i permit.size item key ack_id s.coherent.base left space
          s.coherent.eligible in
      let n : OrderedMap.get i.next_seq i.entries ≡ none =
        s.coherent.base.fresh i.next_seq (omega arith) in
      let more = sums_after i permit.size item key ack_id refl x n in
      rw (o, commit)
        (record {
          coherent =
              Store.store-Coherent i permit.size item key ack_id s.coherent.base left space
                s.coherent.eligible s.coherent.holds;
          cfg_within = subst (Within most_items most_bytes) (sym x.same_cfg) s.cfg_within;
          items_are = items;
          bytes_are = bytes;
          owned = os;
          items_kept = omega (arith, more.0, s.items_kept, length-out before permit after);
          bytes_kept = omega (arith, more.1, s.bytes_kept, sizes-out before permit after);
        })

  pub Step-Sound :
      {a b : LeaseQueue T × List Permit}
      → Sound most_items most_bytes a.0 a.1
      → Step most_items most_bytes a b
      → Sound most_items most_bytes b.0 b.1
  Step-Sound s (reserved {q} {r} {ps} size {permit} e) =
      reserved-Sound q r ps size permit s (reserve-promise q r ps size (ok permit) s e)
  Step-Sound s (refused {q} {r} {ps} size {full} e) =
      let (same, why) = reserve-promise q r ps size (err full) s e in
      subst (λ z. Sound most_items most_bytes z ps) (sym same) s
  Step-Sound s (committed {q} before permit after item key ack_id left) =
      committed-Sound q before permit after item key ack_id left s
  Step-Sound s (cancelled {q} before permit after) = cancelled-Sound q before permit after s
  Step-Sound s (leased {q} {ps} last holder max now) =
      Kept-Sound q _ ps s s.cfg_within
        (Methods.lease-Kept q s.coherent (Sound-Fits q ps s) last holder max now)
  Step-Sound s (reread {q} {ps} last holder min_ack_id now) =
      Kept-Sound q _ ps s s.cfg_within
        (Methods.held-Kept q s.coherent (Sound-Fits q ps s) last holder min_ack_id now)
  Step-Sound s (acked {q} {ps} holder pred) =
      Kept-Sound q _ ps s s.cfg_within
        (Methods.ack_where-Kept q s.coherent (Sound-Fits q ps s) holder pred)
  Step-Sound s (acked_seq {q} {ps} holder seq) =
      Kept-Sound q _ ps s s.cfg_within
        (Methods.ack_seq-Kept q s.coherent (Sound-Fits q ps s) holder seq)
  Step-Sound s (released {q} {ps} holder seq) =
      Kept-Sound q _ ps s s.cfg_within
        (Methods.release_seq-Kept q s.coherent (Sound-Fits q ps s) holder seq)
  Step-Sound s (expired {q} {ps} now) =
      Kept-Sound q _ ps s s.cfg_within (Methods.expire-Kept q s.coherent (Sound-Fits q ps s) now)
  Step-Sound s (purged {q} {ps}) =
      Kept-Sound q _ ps s s.cfg_within (Methods.purge-Kept q s.coherent (Sound-Fits q ps s))
  Step-Sound s (purged_where {q} {ps} pred) =
      Kept-Sound q _ ps s s.cfg_within
        (Methods.purge_where-Kept q s.coherent (Sound-Fits q ps s) pred)
  Step-Sound s (drained {q} {ps}) =
      Kept-Sound q _ ps s s.cfg_within (Methods.drain_all-Kept q s.coherent (Sound-Fits q ps s))
  Step-Sound s (configured {q} {ps} cfg within) =
      Kept-Sound q _ ps s within (Methods.set_config-Kept q s.coherent (Sound-Fits q ps s) cfg)

  pub new-Sound :
      (cfg : QueueConfig) (reservations : ℕ)
      → Within most_items most_bytes cfg
      → Sound most_items most_bytes (new {T = T} cfg reservations) []
  unfolding new sizes granted_by_all OrderedSet.contains OrderedMap.get KeyMap.get sum eligible_of
  new-Sound cfg reservations within = record {
    coherent = record {
      base = record {
        entries_sorted = tt;
        fresh = λ j h. refl;
        available_sorted = tt;
        available_is = λ j. refl;
        available_count = refl;
        bytes_is = refl;
        leased_bytes_is = refl;
        queued_sorted = λ k. tt;
        queued_is = λ k j. refl;
        counts_are = λ k. refl;
      };
      eligible = record { eligible_sorted = tt; eligible_is = λ j. refl };
      holds = record { leases_sorted = λ h. tt; leases_are = λ h j. refl };
    };
    cfg_within = within;
    items_are = refl;
    bytes_are = refl;
    owned = refl;
    items_kept = omega arith;
    bytes_kept = omega arith;
  }

  -- From a new queue, under limits below 2^32 items and below the largest usize in bytes, after
  -- any interleaving of the calls of the queue and of the commits and cancels of its permits,
  -- where every configuration asks for no more than the limits and seqs are left for every
  -- commit: all the indices describe the entries, the two atomics are the number and the total
  -- size of the permits held, and items and permits together are within both limits.
  pub Reach-Sound :
      (cfg : QueueConfig) (reservations : ℕ) {s : LeaseQueue T × List Permit}
      → Within most_items most_bytes cfg
      → Reach most_items most_bytes (new cfg reservations, []) s
      → Sound most_items most_bytes s.0 s.1
  Reach-Sound cfg reservations within here = new-Sound cfg reservations within
  Reach-Sound cfg reservations within (next reach step) =
      Step-Sound (Reach-Sound cfg reservations within reach) step
