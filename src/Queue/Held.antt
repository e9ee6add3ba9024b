-- ===== src/Queue/Held.antt =====
-- `LeaseQueue::held` of crates/tgin-runtime/src/queue.rs: what it does to each entry.
use tgin.Prelude.{
  ℕ, ◌≡◌, refl, ap, ◌∙◌, Option, none, some, List, [], ◌∷◌, ◌==◌, if◌then◌else◌, arith,
  Option-cases, Bool-cases, inl, inr,
}
use tgin.Prelude.Eq.{nat_eq, string_eq}
use tgin.Prelude.Int.{ℤ, ltb_ℤ}
use tgin.Time.{checked_add}
use tgin.Containers.OrderedSet
use tgin.Containers.OrderedMap
use tgin.Containers.KeyMap
use tgin.Queue.Types.{LeaseQueue, Entry, HolderId}
use tgin.Queue.Returns.{held, held_each, renew, renewed, wanted}
use tgin.Queue.Inv.{HoldsLeases, is_held_by}

module _ {T : Type 0} where
  -- An entry of the holder, asked for again: its deadline moves unless its `ack_id` is too low.
  abbrev pub renewed_at : ℤ → Option ℕ → Option (Entry T) → Option (Entry T)
  renewed_at min_ack_id deadline none = none
  renewed_at min_ack_id deadline (some e) =
      if ltb_ℤ e.ack_id min_ack_id then some e else elim e.lease [
        | none ↦ some e
        | some holding ↦ some (record e { lease = some (record holding { deadline = deadline }) })
      ]

  -- The code's renewal is the one above.
  renewed-eq :
      (deadline : Option ℕ) (e : Entry T)
      → some (renewed deadline e) ≡ elim e.lease [
        | none ↦ some e
        | some holding ↦ some (record e { lease = some (record holding { deadline = deadline }) })
      ]
  renewed-eq deadline e = elim (Option-cases e.lease) [
    | inl free ↦ ground (arith, free)
    | inr (holding, leased) ↦ ground (arith, leased)
  ]

  renewed_at_twice :
      (min_ack_id : ℤ) (deadline : Option ℕ) (x : Option (Entry T))
      → renewed_at min_ack_id deadline (renewed_at min_ack_id deadline x)
        ≡ renewed_at min_ack_id deadline x
  renewed_at_twice min_ack_id deadline none = refl
  renewed_at_twice min_ack_id deadline (some e) = elim (Bool-cases (ltb_ℤ e.ack_id min_ack_id)) [
    | inl low ↦ ground (arith, low)
    | inr high ↦ elim (Option-cases e.lease) [
      | inl free ↦ ground (arith, high, free)
      | inr (holding, leased) ↦ ground (arith, high, leased)
    ]
  ]

  get-renew :
      (min_ack_id : ℤ) (deadline : Option ℕ) (s j : ℕ) (m : List (ℕ × Entry T))
      (x : Option (Entry T))
      → OrderedMap.get s m ≡ x
      → OrderedMap.get j (renew s deadline (wanted min_ack_id x) m)
        ≡ (if j == s then renewed_at min_ack_id deadline x else OrderedMap.get j m)
  get-renew min_ack_id deadline s j m none at =
      ground (arith, at, ap (λ z. OrderedMap.get z m) {x = j} {y = s})
  get-renew min_ack_id deadline s j m (some e) at = elim (Bool-cases (ltb_ℤ e.ack_id min_ack_id)) [
    | inl low ↦ rw low (ground (arith, at, ap (λ z. OrderedMap.get z m) {x = j} {y = s}))
    | inr high ↦ rw high (
        OrderedMap.get-insert j s (renewed deadline e) m
        ∙ ap (λ z. if j == s then z else OrderedMap.get j m) (renewed-eq deadline e))
  ]

  get-held_each :
      (seqs : List ℕ) (min_ack_id : ℤ) (deadline : Option ℕ) (m : List (ℕ × Entry T)) (j : ℕ)
      → OrderedMap.get j (held_each seqs min_ack_id deadline m).0 ≡ (
          if OrderedSet.contains j seqs
          then renewed_at min_ack_id deadline (OrderedMap.get j m)
          else OrderedMap.get j m)
  unfolding held_each OrderedSet.contains
  get-held_each [] min_ack_id deadline m j = refl
  get-held_each (s ∷ seqs) min_ack_id deadline m j =
      let r = renew s deadline (wanted min_ack_id (OrderedMap.get s m)) m in
      ground (
        arith,
        get-held_each seqs min_ack_id deadline r j,
        get-renew min_ack_id deadline s j m (OrderedMap.get s m) refl,
        ap (λ z. OrderedMap.get z m) {x = j} {y = s},
        renewed_at_twice min_ack_id deadline (OrderedMap.get s m),
      )

  abbrev pub reread_at : HolderId → ℤ → Option ℕ → Option (Entry T) → Option (Entry T)
  reread_at holder min_ack_id deadline x =
      if is_held_by holder x then renewed_at min_ack_id deadline x else x

  -- On a queue whose leases describe its entries, held gives every entry that the holder has
  -- leased and whose ack id is not below the least one asked for the deadline of the instant
  -- plus the lease timeout, or none when that is past the last instant, changes nothing else of
  -- it, and leaves every other entry as it was.
  pub get-held :
      (last : ℕ) (holder : HolderId) (min_ack_id : ℤ) (now : ℕ) (q : LeaseQueue T) (j : ℕ)
      → HoldsLeases q.inner
      → OrderedMap.get j (held last holder min_ack_id now q).0.inner.entries
        ≡ reread_at holder min_ack_id
            (checked_add last now q.inner.cfg.lease_timeout)
            (OrderedMap.get j q.inner.entries)
  unfolding held OrderedSet.contains
  get-held last holder min_ack_id now q j l =
      elim (Option-cases (KeyMap.get holder q.inner.leases)) [
        | inl absent ↦ rw (absent, held) (ground (arith, l.leases_are holder j, absent))
        | inr (seqs, present) ↦
            let deadline = checked_add last now q.inner.cfg.lease_timeout in
            rw (present, held)
              (ground (
                arith,
                get-held_each seqs min_ack_id deadline q.inner.entries j,
                l.leases_are holder j,
                present,
              ))
      ]
