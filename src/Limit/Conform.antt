-- ===== src/Limit/Conform.antt =====
-- The starts that the limiter of crates/tgin-runtime/src/limit.rs gives one key, in any mix of calls.
use tgin.Prelude.{
  ℕ, zero, suc, ◌+◌, ◌-◌, ◌*◌, ◌≤◌, ◌<◌, ◌≡◌, refl, sym, subst, ◌∙◌, true, false, Option, none,
  some, List, [], ◌∷◌, ltb, leb, if◌then◌else◌, max, get_elem?, arith, Result, ok, err, Bool-cases,
  inl, inr, ◌⊎◌,
}
use tgin.Prelude.Eq.{EqTest}
use tgin.Time.{checked_add}
use tgin.Prelude.Words.{wrapping_add}
use tgin.Limit.Quota.{Quota, Tat, at, never, Denied, book, book_at}
use tgin.Limit.Keyed.{
  Entry, KeyedLimiter, Admit, acquire, settle, entry, tat_of, shard, entry-insert,
}

-- A schedule is at or after an instant.
abbrev pub IsAfter : ℕ → Option Tat → Type 0
IsAfter t none = t ≡ 0
IsAfter t (some (at tat)) = t ≤ tat
IsAfter t (some never) = Unit

-- The answer of `book_at`: the slot starts no later than the schedule, and no earlier than the
-- tolerance before it; the schedule moves an interval on.
pub book_at-moves :
    (last : ℕ) (q : Quota) (tat now max_delay : ℕ) (moved : Tat) (delay : ℕ)
    → now ≤ tat
    → book_at last q tat now max_delay ≡ ok (moved, delay)
    → (tat ≤ now + delay + q.tolerance)
      × (now + delay ≤ tat)
      × IsAfter (tat + q.interval) (some moved)
unfolding book_at checked_add
book_at-moves last q tat now max_delay moved delay a e =
    elim (Bool-cases (ltb max_delay (tat - now - q.tolerance))) [
      | inl late ↦ absurd (ground (arith, e))
      | inr soon ↦ elim (Bool-cases (leb (tat + q.interval) last)) [
        | inl fits ↦ ground (arith, e)
        | inr beyond ↦ ground (arith, e)
      ]
    ]

IsAfter-le : (s t : ℕ) (tat : Tat) → s ≤ t → IsAfter t (some tat) → IsAfter s (some tat)
IsAfter-le s t (at x) h a = omega (arith, h, a)
IsAfter-le s t never h a = tt

-- The same for `book`, on a stored schedule at or after `t`.
book-moves :
    (last : ℕ) (q : Quota) (stored : Option Tat) (now max_delay : ℕ) (moved : Tat) (delay t : ℕ)
    → IsAfter t stored
    → book last q stored now max_delay ≡ ok (moved, delay)
    → (t ≤ now + delay + q.tolerance)
      × IsAfter (now + delay + q.interval) (some moved)
      × IsAfter (t + q.interval) (some moved)
unfolding book
book-moves last q none now max_delay moved delay t a e =
    let (low, high, next) = book_at-moves last q now now max_delay moved delay (omega arith) e in
    (
      omega (arith, a),
      IsAfter-le (now + delay + q.interval) (now + q.interval) moved (omega (arith, high)) next,
      IsAfter-le (t + q.interval) (now + q.interval) moved (omega (arith, a)) next,
    )
book-moves last q (some (at x)) now max_delay moved delay t a e =
    let (low, high, next) =
      book_at-moves last q (max x now) now max_delay moved delay (omega arith) e in
    (
      omega (arith, a, low),
      IsAfter-le (now + delay + q.interval) (max x now + q.interval) moved (omega (arith, high))
          next,
      IsAfter-le (t + q.interval) (max x now + q.interval) moved (omega (arith, a)) next,
    )
book-moves last q (some never) now max_delay moved delay t a e = absurd (cc)

pub record Call (K : Type 0) : Type 0 where
  pub key : K
  pub now : ℕ
  pub max_delay : ℕ

abbrev pub push_start : ℕ → Result Denied Admit → List ℕ → List ℕ
push_start now (err denied) starts = starts
push_start now (ok admit) starts = (now + admit.delay) ∷ starts

module _ {K : Type 0} ⦃e : EqTest K⦄ (hash : K → ℕ) where
  -- The instants at which the slots of one key start, over the calls of every key.
  unfoldable pub starts : ℕ → K → List (Call K) → KeyedLimiter K → List ℕ
  unfolding acquire
  starts last key [] l = []
  starts last key (c ∷ calls) l =
      let (r, answer) = acquire hash last c.key c.now c.max_delay l in
      let rest = starts last key calls r in
      if e.eq c.key key then push_start c.now answer rest else rest

  -- What one call does to the entry of a key.
  record Moved (last : ℕ) (key : K) (c : Call K) (l : KeyedLimiter K) (r : KeyedLimiter K)
      (answer : Result Denied Admit) : Type 0 where
    same_quota : r.quota ≡ l.quota
    others : e.eq c.key key ≡ false → entry hash key r ≡ entry hash key l
    denied_same : (denied : Denied) → answer ≡ err denied → r ≡ l
    booked :
        (admit : Admit)
        → answer ≡ ok admit
        → (moved : Tat) × (book last l.quota (tat_of (entry hash c.key l)) c.now c.max_delay
            ≡ ok (moved, admit.delay))
          × (tat_of (entry hash c.key r) ≡ some moved)

  acquire-Moved :
      (last : ℕ) (key : K) (c : Call K) (l : KeyedLimiter K)
      → let (r, answer) = acquire hash last c.key c.now c.max_delay l in Moved last key c l r answer
  unfolding acquire settle
  acquire-Moved last key c l =
      go (book last l.quota (tat_of (entry hash c.key l)) c.now c.max_delay) refl
    where
      go :
          (x : Result Denied (Tat × ℕ))
          → book last l.quota (tat_of (entry hash c.key l)) c.now c.max_delay ≡ x
          → Moved last key c l (settle hash c.key l x).0 (settle hash c.key l x).1
      go (err denied) b = record {
        same_quota = refl;
        others = λ h. refl;
        denied_same = λ d h. refl;
        booked = λ a h. absurd (cc);
      }
      go (ok (moved, delay)) b =
          let v : Entry = record { tat = moved; stamp = (shard hash c.key l).next_stamp } in
          let n = wrapping_add (shard hash c.key l).next_stamp 1 in
          record {
            same_quota = refl;
            others = λ h. ground (arith, h, entry-insert hash key c.key v n l);
            denied_same = λ d h. absurd (cc);
            booked = λ a h. (
              moved,
              ground (arith, b, h),
              ground (arith, e.eq_iff c.key c.key, entry-insert hash c.key c.key v n l),
            );
          }

  -- The first start, and the schedule of the key after one call.
  acquire-IsAfter :
      (last : ℕ) (key : K) (c : Call K) (l r : KeyedLimiter K) (answer : Result Denied Admit)
      (t : ℕ)
      → Moved last key c l r answer
      → IsAfter t (tat_of (entry hash key l))
      → ((e.eq c.key key ≡ false) × IsAfter t (tat_of (entry hash key r)))
        ⊎ ((e.eq c.key key ≡ true)
            × (((denied : Denied) × (answer ≡ err denied) × IsAfter t (tat_of (entry hash key r)))
                ⊎ ((admit : Admit) × (answer ≡ ok admit)
                    × (t ≤ c.now + admit.delay + l.quota.tolerance)
                    × IsAfter (c.now + admit.delay + l.quota.interval) (tat_of (entry hash key r))
                    × IsAfter (t + l.quota.interval) (tat_of (entry hash key r)))))
  acquire-IsAfter last key c l r answer t m a = elim (Bool-cases (e.eq c.key key)) [
    | inr other ↦ inl (other, subst (λ x. IsAfter t (tat_of x)) (sym (m.others other)) a)
    | inl own ↦ inr (own, go own answer refl)
  ]
    where
      go :
          e.eq c.key key ≡ true
          → (x : Result Denied Admit) → answer ≡ x
          → ((denied : Denied) × (x ≡ err denied) × IsAfter t (tat_of (entry hash key r)))
            ⊎ ((admit : Admit) × (x ≡ ok admit)
                × (t ≤ c.now + admit.delay + l.quota.tolerance)
                × IsAfter (c.now + admit.delay + l.quota.interval) (tat_of (entry hash key r))
                × IsAfter (t + l.quota.interval) (tat_of (entry hash key r)))
      go own (err denied) b = inl (
        denied,
        refl,
        subst (λ z. IsAfter t (tat_of (entry hash key z))) (sym (m.denied_same denied b)) a,
      )
      go own (ok admit) b =
          let k : c.key ≡ key = (e.eq_iff c.key key).0 own in
          let (moved, books, now_at) = m.booked admit b in
          let (low, high, on) =
            book-moves last l.quota (tat_of (entry hash c.key l)) c.now c.max_delay moved
              admit.delay t (subst (λ z. IsAfter t (tat_of (entry hash z l))) (sym k) a) books in
          let at_key : tat_of (entry hash key r) ≡ some moved =
            subst (λ z. tat_of (entry hash z r) ≡ some moved) k now_at in
          inr (
            admit,
            refl,
            low,
            subst (IsAfter (c.now + admit.delay + l.quota.interval)) (sym at_key) high,
            subst (IsAfter (t + l.quota.interval)) (sym at_key) on,
          )

  -- The first of the starts, or a later one.
  after_first :
      (i t a start : ℕ) (instants : List ℕ) (q : Quota)
      → t ≤ start + q.tolerance
      → get_elem? (start ∷ instants) i ≡ some a
      → ((n : ℕ)
          → get_elem? instants n ≡ some a
          → t + q.interval + n * q.interval ≤ a + q.tolerance)
      → t + i * q.interval ≤ a + q.tolerance
  after_first zero t a start instants q low g rest = ground (arith, g)
  after_first (suc n) t a start instants q low g rest = omega (arith, rest n g)

  -- From a schedule at or after `t`, the i-th start is at least i intervals after `t`, less the
  -- tolerance.
  starts-after :
      (last : ℕ) (key : K) (calls : List (Call K)) (l : KeyedLimiter K) (q : Quota) (t i a : ℕ)
      → l.quota ≡ q
      → IsAfter t (tat_of (entry hash key l))
      → get_elem? (starts last key calls l) i ≡ some a
      → t + i * q.interval ≤ a + q.tolerance
  unfolding starts
  starts-after last key [] l q t i a h f g = absurd (cc)
  starts-after last key (c ∷ calls) l q t i a h f g =
      let r = (acquire hash last c.key c.now c.max_delay l).0 in
      let m = acquire-Moved last key c l in
      let same : r.quota ≡ q = m.same_quota ∙ h in
      elim (acquire-IsAfter last key c l r (acquire hash last c.key c.now c.max_delay l).1 t m f) [
        | inl (other, f') ↦ starts-after last key calls r q t i a same f' (ground (arith, g, other))
        | inr (own, inl (denied, answer, f')) ↦
            starts-after last key calls r q t i a same f' (ground (arith, g, own, answer))
        | inr (own, inr (admit, answer, low, high, on)) ↦
            after_first i t a (c.now + admit.delay) (starts last key calls r) q
              (ground (arith, low, h)) (ground (arith, g, own, answer))
              (λ n k.
                starts-after last key calls r q (t + q.interval) n a same
                  (subst (λ z. IsAfter (t + z.interval) (tat_of (entry hash key r))) h on) k)
      ]

  IsAfter-zero : (x : Option Tat) → IsAfter 0 x
  IsAfter-zero none = refl
  IsAfter-zero (some (at t)) = omega arith
  IsAfter-zero (some never) = tt

  spaced_first :
      (i j a b start : ℕ) (instants : List ℕ) (q : Quota)
      → i < j
      → get_elem? (start ∷ instants) i ≡ some a
      → get_elem? (start ∷ instants) j ≡ some b
      → ((n : ℕ)
          → get_elem? instants n ≡ some b
          → start + q.interval + n * q.interval ≤ b + q.tolerance)
      → ((m n : ℕ)
          → m < n
          → get_elem? instants m ≡ some a
          → get_elem? instants n ≡ some b
          → a + (n - m) * q.interval ≤ b + q.tolerance)
      → a + (j - i) * q.interval ≤ b + q.tolerance
  spaced_first i zero a b start instants q h f g first rest = absurd (omega (arith, h))
  spaced_first zero (suc n) a b start instants q h f g first rest =
      let same : a ≡ start = ground (arith, f) in
      let on : a + suc n * q.interval ≤ b + q.tolerance = omega (arith, first n g, same) in
      let whole : suc n - 0 ≡ suc n = omega arith in rw whole on
  spaced_first (suc m) (suc n) a b start instants q h f g first rest =
      let shift : suc n - suc m ≡ n - m = omega arith in rw shift (rest m n (omega (arith, h)) f g)

  -- In any sequence of acquire calls of any keys at any instants, from any state of the limiter,
  -- the i-th and a later j-th slot of one key start at least j - i intervals apart, less the
  -- tolerance.
  pub starts-spaced :
      (last : ℕ) (key : K) (calls : List (Call K)) (l : KeyedLimiter K) (i j a b : ℕ)
      → i < j
      → get_elem? (starts last key calls l) i ≡ some a
      → get_elem? (starts last key calls l) j ≡ some b
      → a + (j - i) * l.quota.interval ≤ b + l.quota.tolerance
  unfolding starts
  starts-spaced last key [] l i j a b h f g = absurd (cc)
  starts-spaced last key (c ∷ calls) l i j a b h f g =
      let r = (acquire hash last c.key c.now c.max_delay l).0 in
      let m = acquire-Moved last key c l in
      let later : (x y : ℕ)
          → x < y
          → get_elem? (starts last key calls r) x ≡ some a
          → get_elem? (starts last key calls r) y ≡ some b
          → a + (y - x) * l.quota.interval ≤ b + l.quota.tolerance =
        λ x y o u v.
          subst (λ z. a + (y - x) * z.interval ≤ b + z.tolerance) m.same_quota
            (starts-spaced last key calls r x y a b o u v) in
      elim (acquire-IsAfter last key c l r (acquire hash last c.key c.now c.max_delay l).1 0 m
        (IsAfter-zero _)) [
          | inl (other, f') ↦ later i j h (ground (arith, f, other)) (ground (arith, g, other))
          | inr (own, inl (denied, answer, f')) ↦
              later i j h (ground (arith, f, own, answer)) (ground (arith, g, own, answer))
          | inr (own, inr (admit, answer, low, high, on)) ↦
              spaced_first i j a b (c.now + admit.delay) (starts last key calls r) l.quota h
                (ground (arith, f, own, answer)) (ground (arith, g, own, answer))
                (λ n k.
                  starts-after last key calls r l.quota (c.now + admit.delay + l.quota.interval) n b
                    m.same_quota high k)
                later
        ]
