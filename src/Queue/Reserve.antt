-- ===== src/Queue/Reserve.antt =====
-- `LeaseQueue::try_reserve` of crates/tgin-runtime/src/queue.rs: its eviction loop.
pub mod Spec
use tgin.Prelude.{
  ℕ, zero, suc, ◌+◌, ◌-◌, ◌≤◌, ◌<◌, ◌^◌, ◌≡◌, ◌≢◌, refl, ap, ◌∙◌, sym, subst, Bool, true, false,
  not, ◌&&◌, ◌||◌, Option, none, some, List, [], ◌∷◌, ◌==◌, ==_iff, if◌then◌else◌, length, head?,
  leb, ltb, min, arith, Option-cases, Bool-cases, inl, inr, ◌⊎◌, Result, ok, err,
}
use tgin.Prelude.Words.{word, u64_max, saturating_add, wrapping_add, wrapping_add_exact}
use tgin.Containers.OrderedSet
use tgin.Containers.OrderedMap
use tgin.Containers.OrderedMap.{sum}
use tgin.Queue.Types.{
  Inner, Entry, LeaseQueue, Full, items_full, bytes_full, too_large, Permit, OnFull, backpressure,
  drop_oldest,
}
use tgin.Queue.Inner.{room, leased, remove}
use tgin.Queue.Ops.{
  Eviction, stop, evict, next_eviction, evict_until, after_eviction, grant, try_reserve, reserved,
  with_inner,
}
use tgin.Queue.Inv.{Base, Fits, Coherent, OneEntry, is_free, free_weight, size_weight, leased_size}
use tgin.Queue.Inv.Remove
use tgin.Queue.Loops.{
  one, NoMore, NoMore-refl, NoMore-trans, NoMore-OneEntry, NoMore-Fits, remove_step,
}

empty_length : (s : List ℕ) → head? s ≡ none → length s ≡ 0
empty_length [] h = refl
empty_length (x ∷ xs) h = absurd (cc)

module _ {T : Type 0} where
  -- With nothing unleased, the leased entries are all.
  all_leased :
      (m : List (ℕ × Entry T)) → sum free_weight m ≡ 0 → sum size_weight m ≡ sum leased_size m
  unfolding sum
  all_leased [] h = refl
  all_leased ((j, e) ∷ m) h = ground (arith, all_leased m)

  free-le-one : (m : List (ℕ × Entry T)) → sum free_weight m ≤ sum one m
  free-le-one m = OrderedMap.sum_mono free_weight one m (λ e. ground arith)

  leased_count : (q : Inner T) → Base q → leased q + sum free_weight q.entries ≡ sum one q.entries
  unfolding leased
  leased_count q b =
      omega (arith, b.available_count, OrderedMap.length-sum q.entries, free-le-one q.entries)

  pub record Evicted (q r : Inner T) : Type 0 where
    pub coherent : Coherent r
    pub no_more : NoMore q r
    pub kept :
        (j : ℕ)
        → (OrderedMap.get j r.entries ≡ OrderedMap.get j q.entries)
          ⊎ ((OrderedMap.get j r.entries ≡ none) × (is_free (OrderedMap.get j q.entries) ≡ true))
    pub oldest_first :
        (i j : ℕ)
        → is_free (OrderedMap.get i q.entries) ≡ true
        → OrderedMap.get i r.entries ≡ none
        → is_free (OrderedMap.get j r.entries) ≡ true
        → i < j

  pub Evicted-refl : (q : Inner T) → Coherent q → Evicted q q
  Evicted-refl q c = record {
    coherent = c;
    no_more = NoMore-refl q;
    kept = λ j. inl refl;
    oldest_first = λ i j h e g. absurd (ground arith);
  }

  -- One round: the first available entry goes, and the leased totals stay.
  pub record Round (q r : Inner T) (m : ℕ) : Type 0 where
    pub coherent : Coherent r
    pub no_more : NoMore q r
    pub at :
        (j : ℕ) → OrderedMap.get j r.entries ≡ (if j == m then none else OrderedMap.get j q.entries)
    pub was_free : is_free (OrderedMap.get m q.entries) ≡ true
    pub lowest : (j : ℕ) → is_free (OrderedMap.get j q.entries) ≡ true → m ≤ j
    pub one_less : sum free_weight r.entries + 1 ≡ sum free_weight q.entries
    pub same_leased : leased r ≡ leased q
    pub same_leased_bytes : r.leased_bytes ≡ q.leased_bytes

  round :
      (q : Inner T) (m : ℕ)
      → Coherent q
      → Fits q
      → head? q.available ≡ some m
      → Round q (remove m q).0 m
  round q m c f h =
      let b = c.base in
      let free : is_free (OrderedMap.get m q.entries) ≡ true =
        sym (b.available_is m) ∙ (OrderedSet.head-least m m q.available b.available_sorted h).0 in
      elim (Option-cases (OrderedMap.get m q.entries)) [
        | inl absent ↦ absurd (ground arith)
        | inr (e, at) ↦
            let o = Remove.remove-OneEntry q m e b at c.eligible f in
            let (d, n) = remove_step q m c f in
            record {
              coherent = d;
              no_more = n;
              at = o.at;
              was_free = free;
              lowest = λ j g.
                  (OrderedSet.head-least m j q.available b.available_sorted h).1
                    (b.available_is j ∙ g);
              one_less = ground (arith, o.sums free_weight, free, at);
              same_leased = ground (
                arith,
                o.sums free_weight,
                o.sums one,
                leased_count q b,
                leased_count (remove m q).0 d.base,
                free,
                at,
              );
              same_leased_bytes =
                  ground (
                    arith,
                    o.sums leased_size,
                    b.leased_bytes_is,
                    d.base.leased_bytes_is,
                    free,
                    at,
                  );
            }
      ]

  room-frame :
      (q r : Inner T) (held : ℕ × ℕ) (items bytes size : ℕ)
      → r.cfg ≡ q.cfg
      → room r held items bytes size ≡ room q held items bytes size
  unfolding room
  room-frame q r held items bytes size e = ground arith

  Round-Evicted : {q q' r : Inner T} (m : ℕ) → Round q q' m → Evicted q' r → Evicted q r
  Round-Evicted {q} {q'} {r} m x y = record {
    coherent = y.coherent;
    no_more = NoMore-trans x.no_more y.no_more;
    kept = λ j.
        ground (
          arith,
          x.at j,
          y.kept j,
          x.was_free,
          ap (λ z. OrderedMap.get z q.entries) {x = j} {y = m},
        );
    oldest_first =
        λ i j h e g. ground (arith, x.at i, x.at j, y.kept j, y.oldest_first i j, x.lowest j);
  }

  -- What a finished loop leaves.
  pub record Done (q : Inner T) (held : ℕ × ℕ) (size evicted : ℕ)
      (result : Option (Inner T × Result Full ℕ)) : Type 0 where
    pub final : Inner T
    pub count : ℕ
    pub result_is : result ≡ some (final, ok count)
    pub evicted_oldest : Evicted q final
    pub has_room : room final held (length final.entries) final.bytes size ≡ ok tt
    pub counted : count + length final.entries ≡ evicted + length q.entries

  pub room-cases :
      (q : Inner T) (held : ℕ × ℕ) (items bytes size : ℕ)
      → (room q held items bytes size ≡ ok tt)
        ⊎ ((full : Full) × (room q held items bytes size ≡ err full))
  room-cases q held items bytes size = go (room q held items bytes size) refl
    where
      go :
          (x : Result Full (Unit {0}))
          → room q held items bytes size ≡ x
          → (room q held items bytes size ≡ ok tt)
            ⊎ ((full : Full) × (room q held items bytes size ≡ err full))
      go (ok tt) e = inl e
      go (err full) e = inr (full, e)

  -- With enough room next to the leased entries, an empty `available` means room.
  head-of-available :
      (q : Inner T) (held : ℕ × ℕ) (size : ℕ) (full : Full)
      → Coherent q
      → room q held (leased q) q.leased_bytes size ≡ ok tt
      → room q held (length q.entries) q.bytes size ≡ err full
      → (m : ℕ) × (head? q.available ≡ some m)
  head-of-available q held size full c fits no_room = elim (Option-cases (head? q.available)) [
    | inr (m, e) ↦ (m, e)
    | inl e ↦
        let b = c.base in
        let none_free : sum free_weight q.entries ≡ 0 =
          omega (arith, b.available_count, empty_length q.available e) in
        let items : length q.entries ≡ leased q =
          omega (arith, leased_count q b, none_free, OrderedMap.length-sum q.entries) in
        let bytes : q.bytes ≡ q.leased_bytes =
          b.bytes_is ∙ (all_leased q.entries none_free ∙ sym b.leased_bytes_is) in
        absurd (cc (items, bytes, fits, no_room))
  ]

  next-cases :
      (held : ℕ × ℕ) (size evicted : ℕ) (q : Inner T)
      → Coherent q
      → Fits q
      → room q held (leased q) q.leased_bytes size ≡ ok tt
      → ((next_eviction held size evicted q ≡ stop (ok evicted))
          × (room q held (length q.entries) q.bytes size ≡ ok tt))
        ⊎ ((m : ℕ) × (next_eviction held size evicted q ≡ evict m) × Round q (remove m q).0 m)
  unfolding next_eviction
  next-cases held size evicted q c f fits =
      elim (room-cases q held (length q.entries) q.bytes size) [
        | inl has ↦ inl (rw (has, next_eviction), has)
        | inr (full, lacks) ↦
            let (m, first) = head-of-available q held size full c fits lacks in
            inr (m, rw (lacks, next_eviction, first), round q m c f first)
      ]

  Round-room :
      (q r : Inner T) (m : ℕ) (held : ℕ × ℕ) (size : ℕ)
      → Round q r m
      → room q held (leased q) q.leased_bytes size ≡ ok tt
      → room r held (leased r) r.leased_bytes size ≡ ok tt
  Round-room q r m held size x h =
      simp (x.same_leased, x.same_leased_bytes)
        (room-frame q r held (leased q) q.leased_bytes size x.no_more.same_cfg ∙ h)

  Round-Done :
      (q r : Inner T) (m : ℕ) (held : ℕ × ℕ) (size evicted : ℕ)
      (result : Option (Inner T × Result Full ℕ))
      → Base q
      → Round q r m
      → Done r held size (evicted + 1) result
      → Done q held size evicted result
  Round-Done q r m held size evicted result b x d = record {
    final = d.final;
    count = d.count;
    result_is = d.result_is;
    evicted_oldest = Round-Evicted m x d.evicted_oldest;
    has_room = d.has_room;
    counted = omega (
      arith,
      d.counted,
      x.one_less,
      leased_count q b,
      leased_count r x.coherent.base,
      x.same_leased,
      OrderedMap.length-sum q.entries,
      OrderedMap.length-sum r.entries,
    );
  }

  -- The loop ends within as many rounds as there are unleased entries, and with room.
  pub evict_until-Done :
      (fuel : ℕ) (held : ℕ × ℕ) (size evicted : ℕ) (q : Inner T)
      → Coherent q
      → Fits q
      → room q held (leased q) q.leased_bytes size ≡ ok tt
      → sum free_weight q.entries ≤ fuel
      → Done q held size evicted (evict_until fuel held size evicted q)
  unfolding evict_until
  evict_until-Done zero held size evicted q c f fits enough =
      elim (next-cases held size evicted q c f fits) [
        | inl (ends, has) ↦ record {
          final = q;
          count = evicted;
          result_is = rw (ends, evict_until);
          evicted_oldest = Evicted-refl q c;
          has_room = has;
          counted = refl;
        }
        | inr (m, goes_on, x) ↦ absurd (omega (arith, x.one_less))
      ]
  evict_until-Done (suc n) held size evicted q c f fits enough =
      elim (next-cases held size evicted q c f fits) [
        | inl (ends, has) ↦ record {
          final = q;
          count = evicted;
          result_is = rw (ends, evict_until);
          evicted_oldest = Evicted-refl q c;
          has_room = has;
          counted = refl;
        }
        | inr (m, goes_on, x) ↦
            rw (goes_on, evict_until)
              (Round-Done q (remove m q).0 m held size evicted
                (evict_until n held size (evicted + 1) (remove m q).0) c.base x
                (evict_until-Done n held size (evicted + 1) (remove m q).0 x.coherent
                  (NoMore-Fits x.no_more f) (Round-room q (remove m q).0 m held size x fits)
                  (omega (arith, x.one_less))))
      ]
