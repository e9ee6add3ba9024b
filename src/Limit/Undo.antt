-- ===== src/Limit/Undo.antt =====
-- What `cancel` and `retain_recent` of crates/tgin-runtime/src/limit.rs leave of the limiter.
use tgin.Prelude.{
  ℕ, ◌≤◌, ◌≡◌, refl, ap, ◌∙◌, true, false, Option, none, some, ◌==◌, ltb, if◌then◌else◌, max, arith,
  Result, ok, err, Bool-cases, inl, inr,
}
use tgin.Prelude.Eq.{EqTest}
use tgin.Prelude.Words.{wrapping_add}
use tgin.Limit.Quota.{Tat, at, never, Denied, book}
use tgin.Limit.Keyed.{
  Entry, KeyedLimiter, Admit, acquire, settle, cancel, retain_recent, entry, tat_of, shard,
  restored, is_recent, with_shard, entry-insert, entry-remove, entry-retain_recent,
}

module _ {K : Type 0} ⦃e : EqTest K⦄ (hash : K → ℕ) where
  -- An answer and the limiter it comes with.
  pub record Booked (key : K) (l r : KeyedLimiter K) (admit : Admit) : Type 0 where
    pub now_at : (v : Entry) × (entry hash key r ≡ some v) × (v.stamp ≡ admit.stamp)
    pub prev_is : admit.prev ≡ entry hash key l
    pub stamp_is : admit.stamp ≡ (shard hash key l).next_stamp
    pub next_is : (shard hash key r).next_stamp ≡ wrapping_add (shard hash key l).next_stamp 1
    pub others : (j : K) → e.eq key j ≡ false → entry hash j r ≡ entry hash j l

  pub acquire-Booked :
      (last : ℕ) (key : K) (now max_delay : ℕ) (l : KeyedLimiter K) (admit : Admit)
      → (acquire hash last key now max_delay l).1 ≡ ok admit
      → Booked key l (acquire hash last key now max_delay l).0 admit
  unfolding acquire settle
  acquire-Booked last key now max_delay l admit h =
      go (book last l.quota (tat_of (entry hash key l)) now max_delay) h
    where
      go :
          (x : Result Denied (Tat × ℕ))
          → (settle hash key l x).1 ≡ ok admit
          → Booked key l (settle hash key l x).0 admit
      go (err denied) k = absurd (cc)
      go (ok (moved, delay)) k =
          let v : Entry = record { tat = moved; stamp = (shard hash key l).next_stamp } in
          let n = wrapping_add (shard hash key l).next_stamp 1 in
          record {
            now_at = (
              v,
              ground (arith, e.eq_iff key key, entry-insert hash key key v n l),
              ground (arith, k),
            );
            prev_is = ground (arith, k);
            stamp_is = ground (arith, k);
            next_is = ground arith;
            others = λ j o. ground (arith, o, entry-insert hash j key v n l);
          }

  entry-restored :
      (j key : K) (prev : Option Entry) (r : KeyedLimiter K)
      → entry hash j (
          with_shard hash key
            (record (shard hash key r) { map = restored hash key prev (shard hash key r).map })
            r)
        ≡ (if e.eq key j then prev else entry hash j r)
  entry-restored j key none r = entry-remove hash j key (shard hash key r).next_stamp r
  entry-restored j key (some v) r = entry-insert hash j key v (shard hash key r).next_stamp r

  -- After an acquire that books a slot, cancelling that booking gives every key the entry that
  -- it had before.
  pub cancel-acquire :
      (last : ℕ) (key : K) (now max_delay : ℕ) (l : KeyedLimiter K) (admit : Admit)
      → (acquire hash last key now max_delay l).1 ≡ ok admit
      → (j : K)
      → entry hash j (cancel hash key admit (acquire hash last key now max_delay l).0)
        ≡ entry hash j l
  unfolding cancel
  cancel-acquire last key now max_delay l admit h j =
      let r = (acquire hash last key now max_delay l).0 in
      let x = acquire-Booked last key now max_delay l admit h in
      let (v, present, stamped) = x.now_at in
      let same : (v.stamp == admit.stamp) ≡ true = ground (arith, stamped) in
      rw (present, same, cancel)
        (entry-restored j key admit.prev r
          ∙ ground (
            arith,
            x.prev_is,
            x.others j,
            e.eq_iff key j,
            ap (λ z. entry hash z l) {x = key} {y = j},
          ))

  -- After retain_recent, a booking of any key at that instant or later is answered, and sets the
  -- schedule, as it would have been before.
  pub retain_recent-book :
      (last now now' max_delay : ℕ) (key : K) (l : KeyedLimiter K)
      → now ≤ now'
      → book last l.quota (tat_of (entry hash key (retain_recent hash now l))) now' max_delay
        ≡ book last l.quota (tat_of (entry hash key l)) now' max_delay
  unfolding book
  retain_recent-book last now now' max_delay key l h =
      rw (entry-retain_recent hash now key l) (go (entry hash key l))
    where
      go :
          (x : Option Entry)
          → book last l.quota
              (tat_of
                (elim x [ none ↦ none | some v ↦ if is_recent now v.tat then some v else none ]))
              now'
              max_delay
            ≡ book last l.quota (tat_of x) now' max_delay
      go none = refl
      go (some v) = recent v.tat
        where
          recent :
              (t : Tat)
              → book last l.quota
                  (tat_of (if is_recent now t then some (record v { tat = t }) else none))
                  now'
                  max_delay
                ≡ book last l.quota (some t) now' max_delay
          recent (at t) = elim (Bool-cases (ltb now t)) [
            | inl ahead ↦ rw ahead refl
            | inr passed ↦
                let on_time : max t now' ≡ now' = ground (arith, passed, h) in
                rw (passed, on_time) refl
          ]
          recent never = refl
