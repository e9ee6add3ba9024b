-- ===== src/Breaker/Threads.antt =====
-- The breaker under threads: each call is cut at its atomic accesses (a load, a `fetch_add`, a
-- store, a `compare_exchange`), and the cuts of all calls interleave in any order.
use tgin.Prelude.{
  ℕ, ◌+◌, ◌≤◌, ◌%◌, ◌^◌, ◌≡◌, Bool, true, false, List, [], ◌∷◌, ◌++◌, arith, ltb, leb, ◌==◌,
  if◌then◌else◌, Option, none, some, subst,
}
use tgin.Prelude.Words.{saturating_add_u32}
use tgin.Breaker.{
  Breaker, state_bits, opened_at_bits, pack, offset, allow, on_failure, open_from, reopens_at,
  compare_exchange, closed, opened, half_open,
}
use tgin.Breaker.Machine.{offset-le}

-- What a call has left to do after its first access.
pub data Rest : Type 0 where
  -- `allow`, to exchange the open word that it loaded
  probing : ℕ → Rest
  -- `on_failure`, to count and to exchange the closed word that it loaded, at an instant
  counting : ℕ → ℕ → Rest
  -- `open`, to exchange a word, at an instant
  opening : ℕ → ℕ → Rest
  -- `on_success`, to store the closed word
  closing : Rest

pub data Outcome : Type 0 where
  answered : Bool → Outcome
  goes_on : Rest → Outcome

module _ (last : ℕ) where
  -- The load of `allow`.
  pub allow_load : Breaker → ℕ → Outcome
  allow_load b now =
      if state_bits b.word == closed
      then answered true
      else if state_bits b.word == opened
      then (if ltb (offset last b now) (reopens_at b (opened_at_bits b.word))
          then answered false
          else goes_on (probing b.word))
      else answered false

  -- The exchange of `allow`.
  pub allow_exchange : Breaker → ℕ → Breaker × Bool
  unfolding compare_exchange
  allow_exchange b from =
      let (word, stored) = compare_exchange b.word from (pack half_open (opened_at_bits from)) in
      (record b { word = word }, stored)

  abbrev allow_rest : Breaker → Outcome → Breaker × Bool
  allow_rest b (answered a) = (b, a)
  allow_rest b (goes_on (probing from)) = allow_exchange b from
  allow_rest b (goes_on _) = (b, false)

  -- With nothing between its two accesses, a call is `allow`.
  pub allow_split : (b : Breaker) (now : ℕ) → allow_rest b (allow_load b now) ≡ allow last b now
  unfolding allow allow_load allow_exchange
  allow_split b now = ground arith

  -- The shared words, what each call under way has left, and how many probes `allow` has let in
  -- since the word last became open or closed.
  pub record System : Type 0 where
    pub breaker : Breaker
    pub calls : List Rest
    pub probes : ℕ

  -- The load of `on_failure`: an open word ends the call.
  pub failure_load : Breaker → ℕ → Option Rest
  failure_load b now =
      if state_bits b.word == half_open
      then some (opening b.word now)
      else if state_bits b.word == closed
      then some (counting b.word now)
      else none

  -- Whether the count that `fetch_add` returned, and this failure, reach the threshold.
  abbrev reached : Breaker → Bool
  reached b = leb b.cfg.failure_threshold (saturating_add_u32 b.failures 1)

  abbrev counted : Breaker → Breaker
  counted b = record b { failures = (b.failures + 1) % 2 ^ 32 }

  abbrev with_failures : Breaker → ℕ → Breaker
  with_failures b n = record b { failures = n }

  abbrev failure_rest : Breaker → Option Rest → Breaker
  failure_rest b none = b
  failure_rest b (some (opening w now)) = open_from last b w now
  failure_rest b (some (counting w now)) =
      if reached b then open_from last (counted b) w now else counted b
  failure_rest b (some _) = b

  -- With nothing between its accesses, a call is `on_failure`.
  pub failure_split :
      (b : Breaker) (now : ℕ) → failure_rest b (failure_load b now) ≡ on_failure last b now
  unfolding on_failure failure_load
  failure_split b now = ground arith

  abbrev with_word : Breaker → ℕ → Breaker
  with_word b w = record b { word = w }

  pub data Step (s : System) : System → Type 0 where
    allow_loads :
        (now w : ℕ)
        → allow_load s.breaker now ≡ goes_on (probing w)
        → Step s (record s { calls = probing w ∷ s.calls })
    allow_exchanges :
        (xs ys : List Rest) (w : ℕ)
        → s.calls ≡ xs ++ (probing w ∷ ys)
        → Step s (record {
          breaker = (allow_exchange s.breaker w).0;
          calls = xs ++ ys;
          probes = if (allow_exchange s.breaker w).1 then s.probes + 1 else s.probes;
        })
    failure_loads :
        (now : ℕ) (r : Rest)
        → failure_load s.breaker now ≡ some r
        → Step s (record s { calls = r ∷ s.calls })
    failure_counts :
        (xs ys : List Rest) (w now : ℕ)
        → s.calls ≡ xs ++ (counting w now ∷ ys)
        → Step s (record s {
          breaker = counted s.breaker;
          calls = if reached s.breaker then opening w now ∷ (xs ++ ys) else xs ++ ys;
        })
    failure_opens :
        (xs ys : List Rest) (w now : ℕ)
        → s.calls ≡ xs ++ (opening w now ∷ ys)
        → Step s (record {
          breaker = open_from last s.breaker w now;
          calls = xs ++ ys;
          probes = if s.breaker.word == w then 0 else s.probes;
        })
    success_resets :
        Step s (record s { breaker = with_failures s.breaker 0; calls = closing ∷ s.calls })
    success_closes :
        (xs ys : List Rest)
        → s.calls ≡ xs ++ (closing ∷ ys)
        → Step s
            (record { breaker = with_word s.breaker (pack closed 0); calls = xs ++ ys; probes = 0 })

  pub data Reach (s : System) : System → Type 0 where
    here : Reach s s
    next : {t u : System} → Reach s t → Step t u → Reach s u

  -- A probe under way loaded an open word.
  abbrev LoadedOpen : Rest → Type 0
  LoadedOpen (probing w) = state_bits w ≡ opened
  LoadedOpen _ = Unit

  abbrev AllOpen : List Rest → Type 0
  AllOpen [] = Unit
  AllOpen (r ∷ rs) = LoadedOpen r × AllOpen rs

  AllOpen-remove :
      (xs ys : List Rest) (r : Rest) → AllOpen (xs ++ (r ∷ ys)) → LoadedOpen r × AllOpen (xs ++ ys)
  AllOpen-remove [] ys r h = h
  AllOpen-remove (x ∷ xs) ys r h = let (a, b) = AllOpen-remove xs ys r h.1 in (a, (h.0, b))

  taken :
      (s : System) (xs ys : List Rest) (r : Rest)
      → s.calls ≡ xs ++ (r ∷ ys)
      → AllOpen s.calls
      → LoadedOpen r × AllOpen (xs ++ ys)
  taken s xs ys r e h = AllOpen-remove xs ys r (subst AllOpen e h)

  pub record Inv (s : System) : Type 0 where
    pub known_state : state_bits s.breaker.word ≤ 2
    pub loaded : AllOpen s.calls
    pub counts : s.probes ≡ (if state_bits s.breaker.word == half_open then 1 else 0)

  load-open :
      (b : Breaker) (now w : ℕ) → allow_load b now ≡ goes_on (probing w) → state_bits w ≡ opened
  unfolding allow_load
  load-open b now w e = ground arith

  failure-open : (b : Breaker) (now : ℕ) (r : Rest) → failure_load b now ≡ some r → LoadedOpen r
  unfolding failure_load
  failure-open b now (probing w) e = ground arith
  failure-open b now (counting w t) e = tt
  failure-open b now (opening w t) e = tt
  failure-open b now closing e = tt

  counted-open :
      (b : Bool) (w now : ℕ) (rs : List Rest)
      → AllOpen rs
      → AllOpen (if b then opening w now ∷ rs else rs)
  counted-open true w now rs h = (tt, h)
  counted-open false w now rs h = h

  -- Every access of every thread keeps the count.
  pub Step-Inv : {s t : System} → Step s t → Inv s → Inv t
  unfolding allow_exchange open_from pack
  Step-Inv {s} (allow_loads now w e) i = record {
    known_state = i.known_state;
    loaded = (load-open s.breaker now w e, i.loaded);
    counts = i.counts;
  }
  Step-Inv {s} (allow_exchanges xs ys w e) i =
      let (a, b) = taken s xs ys (probing w) e i.loaded in
      record { known_state = ground arith; loaded = b; counts = ground arith }
  Step-Inv {s} (failure_loads now r e) i = record {
    known_state = i.known_state;
    loaded = (failure-open s.breaker now r e, i.loaded);
    counts = i.counts;
  }
  Step-Inv {s} (failure_counts xs ys w now e) i = record {
    known_state = i.known_state;
    loaded =
        counted-open (reached s.breaker) w now (xs ++ ys)
          (taken s xs ys (counting w now) e i.loaded).1;
    counts = i.counts;
  }
  Step-Inv {s} (failure_opens xs ys w now e) i = record {
    known_state = ground (arith, offset-le last s.breaker now);
    loaded = (taken s xs ys (opening w now) e i.loaded).1;
    counts = ground (arith, offset-le last s.breaker now);
  }
  Step-Inv success_resets i = record {
    known_state = i.known_state;
    loaded = (tt, i.loaded);
    counts = i.counts;
  }
  Step-Inv {s} (success_closes xs ys e) i = record {
    known_state = omega arith;
    loaded = (taken s xs ys closing e i.loaded).1;
    counts = ground arith;
  }

  Reach-Inv : {s t : System} → Inv s → Reach s t → Inv t
  Reach-Inv i here = i
  Reach-Inv i (next r st) = Step-Inv st (Reach-Inv i r)

  -- However the threads interleave from a state that satisfies Inv: while the breaker is half
  -- open, exactly one call was let in as a probe since the word last became open or closed, and
  -- none was while it is open or closed.
  pub one_probe :
      {s t : System}
      → Inv s
      → Reach s t
      → t.probes ≡ (if state_bits t.breaker.word == half_open then 1 else 0)
  one_probe i r = let j = Reach-Inv i r in j.counts
