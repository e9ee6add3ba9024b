-- ===== src/Limit/Stale.antt =====
-- What `cancel` of crates/tgin-runtime/src/limit.rs does after the key has been booked again.
use tgin.Prelude.{
  ℕ, ◌+◌, ◌≤◌, ◌<◌, ◌≡◌, refl, ap, ◌∙◌, false, Option, none, some, ◌==◌, if◌then◌else◌, ◌⊎◌, List,
  [], ◌∷◌, length, Option-cases, sym, some-cancel, ◌%◌, arith, Result, ok, err, Bool-cases, inl,
  inr,
}
use tgin.Prelude.Eq.{EqTest}
use tgin.Prelude.Words.{word, wrapping_add, wrapping_add_exact}
use tgin.Limit.Quota.{Tat, Denied, book}
use tgin.Limit.Keyed.{
  Entry, KeyedLimiter, Admit, acquire, settle, cancel, retain_recent, entry, tat_of, shard,
  is_recent, entry-insert, entry-retain_recent,
}
use tgin.Limit.Undo.{acquire-Booked}

-- The calls that may come in between; a call takes at most one stamp of a shard.
pub data Move (K : Type 0) : Type 0 where
  acquires : K → ℕ → ℕ → Move K
  retains : ℕ → Move K

module _ {K : Type 0} ⦃e : EqTest K⦄ (hash : K → ℕ) where
  abbrev pub after_move : ℕ → Move K → KeyedLimiter K → KeyedLimiter K
  after_move last (acquires key now max_delay) l = (acquire hash last key now max_delay l).0
  after_move last (retains now) l = retain_recent hash now l

  abbrev pub after_moves : ℕ → List (Move K) → KeyedLimiter K → KeyedLimiter K
  after_moves last [] l = l
  after_moves last (move ∷ moves) l = after_moves last moves (after_move last move l)

module _ {K : Type 0} ⦃e : EqTest K⦄ (hash : K → ℕ) where
  -- How far a call moves the stamps of a key's shard, and what entry the key has then.
  record Advances (key : K) (l r : KeyedLimiter K) : Type 0 where
    at_least : (shard hash key l).next_stamp ≤ (shard hash key r).next_stamp
    at_most : (shard hash key r).next_stamp ≤ (shard hash key l).next_stamp + 1
    entry_from :
        (v : Entry)
        → entry hash key r ≡ some v
        → ((w : Entry) × (entry hash key l ≡ some w) × (w.stamp ≡ v.stamp))
          ⊎ (v.stamp ≡ (shard hash key l).next_stamp)

  Advances-refl : (key : K) (l : KeyedLimiter K) → Advances key l l
  Advances-refl key l = record {
    at_least = omega arith;
    at_most = omega arith;
    entry_from = λ v h. inl (v, h, refl);
  }

  settle-Advances :
      (key j : K) (l : KeyedLimiter K) (x : Result Denied (Tat × ℕ))
      → (shard hash key l).next_stamp + 1 < word
      → Advances key l (settle hash j l x).0
  unfolding settle
  settle-Advances key j l (err denied) fits = Advances-refl key l
  settle-Advances key j l (ok (moved, delay)) fits =
      let v : Entry = record { tat = moved; stamp = (shard hash j l).next_stamp } in
      let n = wrapping_add (shard hash j l).next_stamp 1 in
      let one_on = wrapping_add_exact (shard hash key l).next_stamp 1 fits in
      let same = ap (λ i. (l.shards i).next_stamp) {x = hash key % 16} {y = hash j % 16} in
      record {
        at_least = ground (arith, one_on, same);
        at_most = ground (arith, one_on, same);
        entry_from = λ w h. elim (Bool-cases (e.eq j key)) [
          | inl is_key ↦
              let stored = sym (entry-insert hash key j v n l) ∙ h in
              inr (
                ground (
                  arith,
                  stored,
                  is_key,
                  e.eq_iff j key,
                  ap (λ z. (shard hash z l).next_stamp) {x = j} {y = key},
                ))
          | inr another ↦
              let stored = sym (entry-insert hash key j v n l) ∙ h in
              inl (w, ground (arith, stored, another), refl)
        ];
      }

  move-Advances :
      (last : ℕ) (key : K) (move : Move K) (l : KeyedLimiter K)
      → (shard hash key l).next_stamp + 1 < word
      → Advances key l (after_move hash last move l)
  unfolding acquire retain_recent
  move-Advances last key (acquires j now max_delay) l fits =
      settle-Advances key j l (book last l.quota (tat_of (entry hash j l)) now max_delay) fits
  move-Advances last key (retains now) l fits = record {
    at_least = omega arith;
    at_most = omega arith;
    entry_from = λ v h. go (entry hash key l) refl (sym (entry-retain_recent hash now key l) ∙ h);
  }
    where
      go :
          {v : Entry} (x : Option Entry)
          → entry hash key l ≡ x
          → elim x [ none ↦ none | some w ↦ if is_recent now w.tat then some w else none ] ≡ some v
          → ((w : Entry) × (entry hash key l ≡ some w) × (w.stamp ≡ v.stamp))
            ⊎ (v.stamp ≡ (shard hash key l).next_stamp)
      go none held h = absurd (cc h)
      go {v} (some w) held h = inl (w, held, ground (arith, h))

  -- The key's stamps are past `n`.
  record Past (n : ℕ) (key : K) (l : KeyedLimiter K) : Type 0 where
    next_past : n < (shard hash key l).next_stamp
    entry_past : (v : Entry) → entry hash key l ≡ some v → n < v.stamp

  moves-next :
      (last : ℕ) (key : K) (moves : List (Move K)) (l : KeyedLimiter K)
      → (shard hash key l).next_stamp + length moves < word
      → ((shard hash key l).next_stamp
          ≤ (shard hash key (after_moves hash last moves l)).next_stamp)
        × ((shard hash key (after_moves hash last moves l)).next_stamp
            ≤ (shard hash key l).next_stamp + length moves)
  moves-next last key [] l fits = (omega arith, omega arith)
  moves-next last key (move ∷ moves) l fits =
      let a = move-Advances last key move l (omega (arith, fits)) in
      let (low, high) =
        moves-next last key moves (after_move hash last move l) (omega (arith, fits, a.at_most)) in
      (omega (arith, a.at_least, low), omega (arith, a.at_most, high))

  moves-Past :
      (last : ℕ) (key : K) (moves : List (Move K)) (l : KeyedLimiter K) (n : ℕ)
      → (shard hash key l).next_stamp + length moves < word
      → Past n key l
      → Past n key (after_moves hash last moves l)
  moves-Past last key [] l n fits p = p
  moves-Past last key (move ∷ moves) l n fits p =
      let a = move-Advances last key move l (omega (arith, fits)) in
      moves-Past last key moves (after_move hash last move l) n (omega (arith, fits, a.at_most))
        (record {
          next_past = omega (arith, a.at_least, p.next_past);
          entry_past = λ v h. elim (a.entry_from v h) [
            | inl (w, before, same) ↦ omega (arith, p.entry_past w before, same)
            | inr new ↦ omega (arith, p.next_past, new)
          ];
        })

  -- When an acquire books a slot of a key, and a later acquire books another slot of the same
  -- key, with any acquires of any keys and any calls of retain_recent between the two and behind
  -- the second, and with stamps left in the shard for all of them, cancelling the first booking
  -- changes nothing.
  pub cancel-stale :
      (last : ℕ) (key : K) (now max_delay now' max_delay' : ℕ) (between behind : List (Move K))
      (l : KeyedLimiter K) (admit later : Admit)
      → (shard hash key l).next_stamp + length between + length behind + 2 < word
      → (acquire hash last key now max_delay l).1 ≡ ok admit
      → (acquire hash last key now' max_delay'
          (after_moves hash last between (acquire hash last key now max_delay l).0)).1
        ≡ ok later
      → let r =
          after_moves hash last behind
            (acquire hash last key now' max_delay'
              (after_moves hash last between (acquire hash last key now max_delay l).0)).0 in
        cancel hash key admit r ≡ r
  unfolding cancel
  cancel-stale last key now max_delay now' max_delay' between behind l admit later fits h g =
      let q = (acquire hash last key now max_delay l).0 in
      let x = acquire-Booked hash last key now max_delay l admit h in
      let one_on = wrapping_add_exact (shard hash key l).next_stamp 1 (omega (arith, fits)) in
      let (low, high) = moves-next last key between q (omega (arith, fits, x.next_is, one_on)) in
      let p = after_moves hash last between q in
      let y = acquire-Booked hash last key now' max_delay' p later g in
      let (v, present, stamped) = y.now_at in
      let two_on =
        wrapping_add_exact (shard hash key p).next_stamp 1
          (omega (arith, fits, x.next_is, one_on, high)) in
      let s = (acquire hash last key now' max_delay' p).0 in
      let past : Past admit.stamp key s = record {
        next_past = omega (arith, x.stamp_is, x.next_is, one_on, low, y.next_is, two_on);
        entry_past = λ w held.
            let same = some-cancel present held in
            omega (
              arith,
              ap (λ (z : Entry). z.stamp) same,
              stamped,
              y.stamp_is,
              x.stamp_is,
              x.next_is,
              one_on,
              low,
            );
      } in
      let r = after_moves hash last behind s in
      let end =
        moves-Past last key behind s admit.stamp
          (omega (arith, fits, x.next_is, one_on, high, y.next_is, two_on)) past in
      elim (Option-cases (entry hash key r)) [
        | inl absent ↦ rw (absent, cancel) refl
        | inr (w, held) ↦
            let other : (w.stamp == admit.stamp) ≡ false = ground (arith, end.entry_past w held) in
            rw (held, other, cancel) refl
      ]
