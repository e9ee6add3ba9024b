-- ===== src/Consumer/Polls.antt =====
-- What a poll of crates/tgin-core/src/consumer/pull.rs does.
use tgin.Prelude.{
  ℕ, ◌≡◌, refl, ap, ◌∙◌, true, Option, ◌==◌, if◌then◌else◌, arith, Bool-cases, inl, inr,
}
use tgin.Prelude.Int.{ℤ, pos, negsuc, ltb_ℤ}
use tgin.Core.{Envelope}
use tgin.Time.{checked_add}
use tgin.Containers.OrderedMap
use tgin.Queue.Types.{LeaseQueue, Entry, HolderId}
use tgin.Queue.Returns.{held, ack_below_each, ack_all_each}
use tgin.Queue.Inv.{Coherent, Fits}
use tgin.Queue.Ack.{acked_at, get-ack_where}
use tgin.Queue.Held.{reread_at, get-held}
use tgin.Queue.Methods
use tgin.Consumer.Pull.{PollRequest, PullConsumer, update_depth, acked, ack, poll_start}

update_depth-queue : (c : PullConsumer) → (update_depth c).queue ≡ c.queue
unfolding update_depth
update_depth-queue c = ground arith

ack-queue :
    (holder : HolderId) (offset : ℤ) (now : ℕ) (c : PullConsumer)
    → (ack holder offset now c).queue ≡ (acked holder offset c.queue).0
unfolding ack update_depth
ack-queue holder offset now c = ground arith

-- What an entry is after a poll with this offset acknowledged.
abbrev pub acknowledged : HolderId → ℤ → Option (Entry Envelope) → Option (Entry Envelope)
acknowledged holder (pos n) x =
    if n == 0 then x else acked_at holder (λ e. ltb_ℤ e.ack_id (pos n)) x
acknowledged holder (negsuc n) x = acked_at holder (λ e. true) x

acked-entries :
    (holder : HolderId) (offset : ℤ) (q : LeaseQueue Envelope) (j : ℕ)
    → Coherent q.inner
    → Fits q.inner
    → (OrderedMap.get j (acked holder offset q).0.inner.entries
        ≡ acknowledged holder offset (OrderedMap.get j q.inner.entries))
      × Coherent (acked holder offset q).0.inner
      × ((acked holder offset q).0.inner.cfg ≡ q.inner.cfg)
unfolding acked ack_below_each ack_all_each
acked-entries holder (pos n) q j c f = elim (Bool-cases (n == 0)) [
  | inl nothing ↦ rw (nothing, acked) (refl, c, refl)
  | inr some_acked ↦
      let k = Methods.ack_where-Kept q c f holder (λ e. ltb_ℤ e.ack_id (pos n)) in
      rw (some_acked, acked)
        (get-ack_where holder (λ e. ltb_ℤ e.ack_id (pos n)) q c f j, k.coherent, k.cfg_is)
]
acked-entries holder (negsuc n) q j c f =
    let k = Methods.ack_where-Kept q c f holder (λ e. true) in
    (get-ack_where holder (λ e. true) q c f j, k.coherent, k.cfg_is)

poll_start-queue :
    (last : ℕ) (req : PollRequest) (start : ℕ) (c : PullConsumer)
    → (poll_start last req start c).0.queue
      ≡ (held last req.instance_of req.offset start
          (ack req.instance_of req.offset start c).queue).0
unfolding poll_start update_depth
poll_start-queue last req start c = ground arith

-- On a coherent queue whose totals fit, the start of a poll takes out exactly the updates that
-- its instance has leased and that its offset acknowledges, which are those below a positive
-- offset, all of them for a negative one and none for zero; it renews the deadline of those that
-- the instance still holds at or above the offset, and leaves every other update as it was.
pub get-poll_start :
    (last : ℕ) (req : PollRequest) (start : ℕ) (c : PullConsumer) (j : ℕ)
    → Coherent c.queue.inner
    → Fits c.queue.inner
    → OrderedMap.get j (poll_start last req start c).0.queue.inner.entries
      ≡ reread_at req.instance_of req.offset
          (checked_add last start c.queue.inner.cfg.lease_timeout)
          (acknowledged req.instance_of req.offset (OrderedMap.get j c.queue.inner.entries))
get-poll_start last req start c j coherent fits =
    let (entries, still, cfg) = acked-entries req.instance_of req.offset c.queue j coherent fits in
    let q = (acked req.instance_of req.offset c.queue).0 in
    ap (λ q. OrderedMap.get j q.inner.entries) (poll_start-queue last req start c)
    ∙ ap (λ q. OrderedMap.get j (held last req.instance_of req.offset start q).0.inner.entries)
        (ack-queue req.instance_of req.offset start c)
    ∙ get-held last req.instance_of req.offset start q j still.holds
    ∙ ap
        (λ g.
          reread_at req.instance_of req.offset (checked_add last start g.lease_timeout)
            (OrderedMap.get j q.inner.entries))
        cfg
    ∙ ap
        (reread_at req.instance_of req.offset
          (checked_add last start c.queue.inner.cfg.lease_timeout))
        entries
