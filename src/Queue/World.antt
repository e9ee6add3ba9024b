-- ===== src/Queue/World.antt =====
-- The queue of crates/tgin-runtime/src/queue.rs and the permits that its callers hold, through every interleaving of the methods.
pub mod Safety
use tgin.Prelude.{
  ℕ, ◌+◌, ◌≤◌, ◌<◌, ◌^◌, ◌≡◌, refl, Bool, true, false, ◌&&◌, Option, none, some, List, [], ◌∷◌,
  ◌++◌, ◌==◌, length, length-append, arith, Result, ok, err,
}
use tgin.Prelude.Eq.{EqTest, nat_eq, string_eq}
use tgin.Prelude.Int.{ℤ}
use tgin.Prelude.Words.{word, u64_max, wrapping_sub, wrapping_sub_exact}
use tgin.Containers.OrderedSet
use tgin.Containers.OrderedMap
use tgin.Containers.OrderedMap.{sum}
use tgin.Containers.KeyMap
use tgin.Queue.Types.{LeaseQueue, Inner, Entry, HolderId, QueueConfig, Permit, Full, ForeignPermit}
use tgin.Queue.Inner.{eligible_of}
use tgin.Queue.Ops.{new, try_reserve, commit, cancel, drop_permit, store, lease, with_inner, notify}
use tgin.Queue.Returns.{
  held, ack_where, ack_seq, release_seq, expire, purge, purge_where, drain_all, set_config,
}
use tgin.Queue.Inv.{Base, Fits, Coherent, size_weight}
use tgin.Queue.Inv.Store
use tgin.Queue.Loops.{one}
use tgin.Queue.Reserve.Spec.{Limits, Granted, Refused, Reserves, try_reserve-Reserves}
use tgin.Queue.Methods

unfoldable pub sizes : List Permit → ℕ
sizes [] = 0
sizes (p ∷ ps) = p.size + sizes ps

unfoldable pub granted_by_all : ℕ → List Permit → Bool
granted_by_all owner [] = true
granted_by_all owner (p ∷ ps) = (p.granted_by == owner) && granted_by_all owner ps

pub sizes-out :
    (before : List Permit) (p : Permit) (after : List Permit)
    → sizes (before ++ p ∷ after) ≡ p.size + sizes (before ++ after)
unfolding sizes
sizes-out [] p after = refl
sizes-out (x ∷ before) p after = omega (arith, sizes-out before p after)

pub owner-out :
    (owner : ℕ) (before : List Permit) (p : Permit) (after : List Permit)
    → granted_by_all owner (before ++ p ∷ after) ≡ true
    → ((p.granted_by == owner) ≡ true) × (granted_by_all owner (before ++ after) ≡ true)
unfolding granted_by_all
owner-out owner [] p after h = (ground arith, ground arith)
owner-out owner (x ∷ before) p after h = ground (arith, owner-out owner before p after)

pub length-out :
    (before : List Permit) (p : Permit) (after : List Permit)
    → length (before ++ p ∷ after) ≡ length (before ++ after) + 1
length-out before p after =
    omega (arith, length-append before (p ∷ after), length-append before after)

-- Configurations that ask for no more than `most_items` and `most_bytes`.
pub record Within (most_items most_bytes : ℕ) (cfg : QueueConfig) : Type 0 where
  pub items_within : cfg.capacity ≤ most_items
  pub bytes_within : cfg.capacity_bytes ≤ most_bytes

module _ {T : Type 0} where
  -- One call: the queue and the permits before it and after it. A permit is held until it is
  -- committed or cancelled. `commit` has seqs left.
  pub data Step (most_items most_bytes : ℕ)
      : LeaseQueue T × List Permit → LeaseQueue T × List Permit → Type 0 where
    reserved :
        {q r : LeaseQueue T} {ps : List Permit} (size : ℕ) {permit : Permit}
        → try_reserve q size ≡ some (r, ok permit)
        → Step most_items most_bytes (q, ps) (r, permit ∷ ps)
    refused :
        {q r : LeaseQueue T} {ps : List Permit} (size : ℕ) {full : Full}
        → try_reserve q size ≡ some (r, err full)
        → Step most_items most_bytes (q, ps) (r, ps)
    committed :
        {q : LeaseQueue T} (before : List Permit) (permit : Permit) (after : List Permit) (item : T)
        (key : Option ℕ) (ack_id : ℤ)
        → q.inner.next_seq + 1 < word
        → Step most_items most_bytes
            (q, before ++ permit ∷ after)
            ((commit permit item key ack_id q).0, before ++ after)
    cancelled :
        {q : LeaseQueue T} (before : List Permit) (permit : Permit) (after : List Permit)
        → Step most_items most_bytes
            (q, before ++ permit ∷ after)
            (cancel permit q, before ++ after)
    leased :
        {q : LeaseQueue T} {ps : List Permit} (last : ℕ) (holder : HolderId) (max now : ℕ)
        → Step most_items most_bytes (q, ps) ((lease last holder max now q).0, ps)
    reread :
        {q : LeaseQueue T} {ps : List Permit} (last : ℕ) (holder : HolderId) (min_ack_id : ℤ)
        (now : ℕ)
        → Step most_items most_bytes (q, ps) ((held last holder min_ack_id now q).0, ps)
    acked :
        {q : LeaseQueue T} {ps : List Permit} (holder : HolderId) (pred : Entry T → Bool)
        → Step most_items most_bytes (q, ps) ((ack_where holder pred q).0, ps)
    acked_seq :
        {q : LeaseQueue T} {ps : List Permit} (holder : HolderId) (seq : ℕ)
        → Step most_items most_bytes (q, ps) ((ack_seq holder seq q).0, ps)
    released :
        {q : LeaseQueue T} {ps : List Permit} (holder : HolderId) (seq : ℕ)
        → Step most_items most_bytes (q, ps) ((release_seq holder seq q).0, ps)
    expired :
        {q : LeaseQueue T} {ps : List Permit} (now : ℕ)
        → Step most_items most_bytes (q, ps) ((expire now q).0, ps)
    purged :
        {q : LeaseQueue T} {ps : List Permit} → Step most_items most_bytes (q, ps) ((purge q).0, ps)
    purged_where :
        {q : LeaseQueue T} {ps : List Permit} (pred : T → Bool)
        → Step most_items most_bytes (q, ps) ((purge_where pred q).0, ps)
    drained :
        {q : LeaseQueue T} {ps : List Permit}
        → Step most_items most_bytes (q, ps) ((drain_all q).0, ps)
    configured :
        {q : LeaseQueue T} {ps : List Permit} (cfg : QueueConfig)
        → Within most_items most_bytes cfg
        → Step most_items most_bytes (q, ps) (set_config cfg q, ps)

  pub data Reach (most_items most_bytes : ℕ) (s : LeaseQueue T × List Permit)
      : LeaseQueue T × List Permit → Type 0 where
    here : Reach most_items most_bytes s s
    next :
        {t u : LeaseQueue T × List Permit}
        → Reach most_items most_bytes s t
        → Step most_items most_bytes t u
        → Reach most_items most_bytes s u

  -- The indices are right, the counters are those of the permits held, and items and permits
  -- together keep the limits.
  pub record Sound (most_items most_bytes : ℕ) (q : LeaseQueue T) (ps : List Permit) : Type 0 where
    pub coherent : Coherent q.inner
    pub cfg_within : Within most_items most_bytes q.inner.cfg
    pub items_are : q.reserved_items ≡ length ps
    pub bytes_are : q.reserved_bytes ≡ sizes ps
    pub owned : granted_by_all q.reservations ps ≡ true
    pub items_kept : length q.inner.entries + length ps ≤ most_items
    pub bytes_kept : sum size_weight q.inner.entries + sizes ps ≤ most_bytes
