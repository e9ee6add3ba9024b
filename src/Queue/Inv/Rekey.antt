-- ===== src/Queue/Inv/Rekey.antt =====
-- `eligible` around `rekeyed` of crates/tgin-runtime/src/queue.rs, when one entry changes.
use tgin.Prelude.{
  ℕ, ◌≡◌, refl, ap, subst, sym, true, false, not, ◌&&◌, ◌||◌, Option, none, some, ◌==◌,
  if◌then◌else◌, arith, Option-cases, Bool-cases, inl, inr, ◌⊎◌, ◌∙◌, ==_iff,
}
use tgin.Prelude.Eq.{nat_eq}
use tgin.Containers.OrderedSet
use tgin.Containers.OrderedMap
use tgin.Containers.KeyMap
use tgin.Containers.KeyMap.{set_of}
use tgin.Queue.Types.{Inner, Entry}
use tgin.Queue.Inner.{eligible_of, refresh, differ, without, with_added, rekeyed}
use tgin.Queue.Inv.{Base, IsEligible, HoldsLeases, is_free, is_free_of, is_key, may_lease}

module _ {T : Type 0} where
  -- What `eligible_of` names is unleased, has the key, and is the lowest such seq.
  pub eligible_of-free :
      (q : Inner T) (k j : ℕ)
      → Base q
      → is_key j (eligible_of q k) ≡ true
      → is_free_of k (OrderedMap.get j q.entries) ≡ true
  unfolding eligible_of
  eligible_of-free q k j b h = ground (
    arith,
    b.queued_is k j,
    OrderedSet.head-least j j (set_of k q.queued_per_key) (b.queued_sorted k),
  )

  -- `eligible_of` reads two indices.
  pub eligible_of-frame :
      (q c : Inner T) (k : ℕ)
      → KeyMap.get k c.leased_per_key ≡ KeyMap.get k q.leased_per_key
      → set_of k c.queued_per_key ≡ set_of k q.queued_per_key
      → eligible_of c k ≡ eligible_of q k
  unfolding eligible_of
  eligible_of-frame q c k h g = ground arith

  contains-with_added :
      (j : ℕ) (after : Option ℕ) (x : Inner T)
      → OrderedSet.contains j (with_added after x.eligible)
        ≡ (is_key j after || OrderedSet.contains j x.eligible)
  contains-with_added j none x = refl
  contains-with_added j (some a) x = ground (arith, OrderedSet.contains-insert j a x.eligible)

  contains-without :
      (j : ℕ) (before : Option ℕ) (x : Inner T)
      → OrderedSet.IsSorted x.eligible
      → OrderedSet.contains j (without before x.eligible)
        ≡ (not (is_key j before) && OrderedSet.contains j x.eligible)
  contains-without j none x a = refl
  contains-without j (some y) x a = ground (arith, OrderedSet.contains-remove j y x.eligible a)

  refreshed_contains :
      (j : ℕ) (before after : Option ℕ) (c : Inner T)
      → OrderedSet.IsSorted c.eligible
      → OrderedSet.contains j (refresh before after c).eligible ≡ (
          if differ before after
          then is_key j after || (not (is_key j before) && OrderedSet.contains j c.eligible)
          else OrderedSet.contains j c.eligible)
  unfolding refresh
  refreshed_contains j before after c a = ground (
    arith,
    contains-with_added j after (record c { eligible = without before c.eligible }),
    contains-without j before c a,
  )

  refreshed-IsSorted :
      (before after : Option ℕ) (c : Inner T)
      → OrderedSet.IsSorted c.eligible
      → OrderedSet.IsSorted (refresh before after c).eligible
  unfolding refresh
  refreshed-IsSorted none none c a = a
  refreshed-IsSorted none (some y) c a = OrderedSet.insert-IsSorted y c.eligible a
  refreshed-IsSorted (some x) none c a = OrderedSet.remove-IsSorted x c.eligible a
  refreshed-IsSorted (some x) (some y) c a = ground (
    arith,
    a,
    OrderedSet.remove-IsSorted x c.eligible a,
    OrderedSet.insert-IsSorted y (OrderedSet.remove x c.eligible),
  )

  -- Nothing but `eligible` changes.
  pub refresh-frame :
      (before after : Option ℕ) (c : Inner T)
      → (refresh before after c) ≡ record c { eligible = (refresh before after c).eligible }
  unfolding refresh
  refresh-frame before after c = ground arith

  abbrev pub KeyedBy : ℕ → Option (Entry T) → Type 0
  KeyedBy k none = Unit {0}
  KeyedBy k (some e) = e.key ≡ some k

  -- One entry changed from `q` to `c`, and it has the key `k` before and after.
  pub record KeyedChange (q c : Inner T) (s k : ℕ) : Type 0 where
    pub same_eligible : c.eligible ≡ q.eligible
    pub others :
        (j : ℕ) → (j == s) ≡ false → OrderedMap.get j c.entries ≡ OrderedMap.get j q.entries
    pub keyed_before : KeyedBy k (OrderedMap.get s q.entries)
    pub keyed_after : KeyedBy k (OrderedMap.get s c.entries)
    pub other_keys : (i : ℕ) → (i == k) ≡ false → eligible_of c i ≡ eligible_of q i

  refresh_at :
      (q c : Inner T) (k j : ℕ) (x y : Option (Entry T))
      → KeyedBy k x
      → KeyedBy k y
      → (is_key j (eligible_of q k) ≡ true → is_free_of k x ≡ true)
      → (is_key j (eligible_of c k) ≡ true → is_free_of k y ≡ true)
      → OrderedSet.contains j c.eligible ≡ may_lease q j x
      → (if differ (eligible_of q k) (eligible_of c k)
          then is_key j (eligible_of c k)
            || (not (is_key j (eligible_of q k)) && OrderedSet.contains j c.eligible)
          else OrderedSet.contains j c.eligible)
        ≡ may_lease c j y
  refresh_at q c k j none none kx ky bx by e = ground arith
  refresh_at q c k j none (some f) kx ky bx by e = ground arith
  refresh_at q c k j (some d) none kx ky bx by e = ground arith
  refresh_at q c k j (some d) (some f) kx ky bx by e = ground arith

  refresh_same :
      (q c : Inner T) (k j : ℕ) (x : Option (Entry T))
      → ((i : ℕ) → (i == k) ≡ false → eligible_of c i ≡ eligible_of q i)
      → (is_key j (eligible_of q k) ≡ true → is_free_of k x ≡ true)
      → (is_key j (eligible_of c k) ≡ true → is_free_of k x ≡ true)
      → OrderedSet.contains j c.eligible ≡ may_lease q j x
      → (if differ (eligible_of q k) (eligible_of c k)
          then is_key j (eligible_of c k)
            || (not (is_key j (eligible_of q k)) && OrderedSet.contains j c.eligible)
          else OrderedSet.contains j c.eligible)
        ≡ may_lease c j x
  refresh_same q c k j none other bx by e = ground arith
  refresh_same q c k j (some d) other bx by e = elim (Option-cases d.key) [
    | inl keyless ↦ ground arith
    | inr (i, keyed) ↦ ground (arith, other i)
  ]

  refreshed_eligible_of :
      (before after : Option ℕ) (c : Inner T) (k : ℕ)
      → eligible_of (refresh before after c) k ≡ eligible_of c k
  unfolding refresh eligible_of
  refreshed_eligible_of before after c k = ground arith

  refreshed_may_lease :
      (before after : Option ℕ) (c : Inner T) (j : ℕ) (x : Option (Entry T))
      → may_lease (refresh before after c) j x ≡ may_lease c j x
  refreshed_may_lease before after c j none = refl
  refreshed_may_lease before after c j (some d) = elim (Option-cases d.key) [
    | inl keyless ↦ ground arith
    | inr (i, keyed) ↦ ground (arith, refreshed_eligible_of before after c i)
  ]

  refreshed_entries :
      (before after : Option ℕ) (c : Inner T) → (refresh before after c).entries ≡ c.entries
  unfolding refresh
  refreshed_entries before after c = ground arith

  pub refreshed-IsEligible :
      (q c : Inner T) (s k : ℕ)
      → Base q
      → Base c
      → IsEligible q
      → KeyedChange q c s k
      → IsEligible (refresh (eligible_of q k) (eligible_of c k) c)
  refreshed-IsEligible q c s k bq bc i x = record {
    eligible_sorted = refreshed-IsSorted (eligible_of q k) (eligible_of c k) c sorted;
    eligible_is = λ j.
        refreshed_contains j (eligible_of q k) (eligible_of c k) c sorted
        ∙ (moved j (Bool-cases (j == s))
            ∙ (sym (refreshed_may_lease (eligible_of q k) (eligible_of c k) c j _)
                ∙ ap (may_lease (refresh (eligible_of q k) (eligible_of c k) c) j) (
                    sym (
                      ap (OrderedMap.get j)
                        (refreshed_entries (eligible_of q k) (eligible_of c k) c)))));
  }
    where
      sorted : OrderedSet.IsSorted c.eligible
      sorted = rw x.same_eligible i.eligible_sorted

      moved :
          (j : ℕ)
          → ((j == s) ≡ true) ⊎ ((j == s) ≡ false)
          → (if differ (eligible_of q k) (eligible_of c k)
              then is_key j (eligible_of c k)
                || (not (is_key j (eligible_of q k)) && OrderedSet.contains j c.eligible)
              else OrderedSet.contains j c.eligible)
            ≡ may_lease c j (OrderedMap.get j c.entries)
      moved j (inl here) =
          let e : j ≡ s = (==_iff j s).0 here in
          refresh_at q c k j (OrderedMap.get j q.entries) (OrderedMap.get j c.entries)
            (subst (λ z. KeyedBy k (OrderedMap.get z q.entries)) (sym e) x.keyed_before)
            (subst (λ z. KeyedBy k (OrderedMap.get z c.entries)) (sym e) x.keyed_after)
            (eligible_of-free q k j bq) (eligible_of-free c k j bc)
            (rw x.same_eligible (i.eligible_is j))
      moved j (inr there) =
          let e = x.others j there in
          refresh_same q c k j (OrderedMap.get j c.entries) x.other_keys
            (rw e (eligible_of-free q k j bq)) (eligible_of-free c k j bc)
            (rw (x.same_eligible, e) (i.eligible_is j))

  abbrev pub Keyless : Option (Entry T) → Type 0
  Keyless none = Unit {0}
  Keyless (some e) = e.key ≡ none

  -- One entry changed from `q` to `c`, and it has no key.
  pub record KeylessChange (q c : Inner T) (s : ℕ) : Type 0 where
    pub sorted : OrderedSet.IsSorted c.eligible
    pub eligible_at :
        (j : ℕ)
        → OrderedSet.contains j c.eligible ≡ (
            if j == s
            then is_free (OrderedMap.get s c.entries)
            else OrderedSet.contains j q.eligible)
    pub others :
        (j : ℕ) → (j == s) ≡ false → OrderedMap.get j c.entries ≡ OrderedMap.get j q.entries
    pub keyless : Keyless (OrderedMap.get s c.entries)
    pub all_keys : (i : ℕ) → eligible_of c i ≡ eligible_of q i

  Keyless-may_lease :
      (c : Inner T) (j : ℕ) (x : Option (Entry T)) → Keyless x → may_lease c j x ≡ is_free x
  Keyless-may_lease c j none h = refl
  Keyless-may_lease c j (some e) h = ground arith

  same_may_lease :
      (q c : Inner T) (j : ℕ) (x : Option (Entry T))
      → ((i : ℕ) → eligible_of c i ≡ eligible_of q i)
      → may_lease c j x ≡ may_lease q j x
  same_may_lease q c j none h = refl
  same_may_lease q c j (some e) h = elim (Option-cases e.key) [
    | inl none_of ↦ ground arith
    | inr (i, keyed) ↦ ground (arith, h i)
  ]

  pub keyless-IsEligible :
      (q c : Inner T) (s : ℕ) → IsEligible q → KeylessChange q c s → IsEligible c
  keyless-IsEligible q c s i x = record {
    eligible_sorted = x.sorted;
    eligible_is = λ j. at j (Bool-cases (j == s));
  }
    where
      at :
          (j : ℕ)
          → ((j == s) ≡ true) ⊎ ((j == s) ≡ false)
          → OrderedSet.contains j c.eligible ≡ may_lease c j (OrderedMap.get j c.entries)
      at j (inl here) =
          let e : j ≡ s = (==_iff j s).0 here in
          ground (
            arith,
            x.eligible_at j,
            here,
            ap (λ z. OrderedMap.get z c.entries) e,
            Keyless-may_lease c j (OrderedMap.get s c.entries) x.keyless,
          )
      at j (inr there) = ground (
        arith,
        x.eligible_at j,
        there,
        x.others j there,
        i.eligible_is j,
        same_may_lease q c j (OrderedMap.get j q.entries) x.all_keys,
      )

  pub refresh-Base :
      (before after : Option ℕ) (c : Inner T) → Base c → Base (refresh before after c)
  refresh-Base before after c b = subst Base (sym (refresh-frame before after c)) (record {
    entries_sorted = b.entries_sorted;
    fresh = b.fresh;
    available_sorted = b.available_sorted;
    available_is = b.available_is;
    available_count = b.available_count;
    bytes_is = b.bytes_is;
    leased_bytes_is = b.leased_bytes_is;
    queued_sorted = b.queued_sorted;
    queued_is = b.queued_is;
    counts_are = b.counts_are;
  })

  -- `rekeyed` as a whole: `q` is the queue that the indices are right for, `start` the queue that
  -- `rekeyed` is called on, which may already hold the changed entry.
  pub record Rekeyed (q : Inner T) (r c : Inner T) : Type 0 where
    pub base : Base r
    pub eligible : IsEligible r
    pub frame : r ≡ record c { eligible = r.eligible }

  pub rekeyed-Rekeyed :
      (q start : Inner T) (s : ℕ) (key : Option ℕ) (change : Inner T → Inner T)
      → Base q
      → IsEligible q
      → ((k : ℕ) → eligible_of start k ≡ eligible_of q k)
      → Base (change start)
      → ((k : ℕ) → key ≡ some k → KeyedChange q (change start) s k)
      → (key ≡ none → KeylessChange q (change start) s)
      → Rekeyed q (rekeyed key change start) (change start)
  unfolding rekeyed
  rekeyed-Rekeyed q start s none change bq i same b keyed keyless = record {
    base = b;
    eligible = keyless-IsEligible q (change start) s i (keyless refl);
    frame = refl;
  }
  rekeyed-Rekeyed q start s (some k) change bq i same b keyed keyless =
      let c = change start in
      rw (same k) (record {
        base = refresh-Base (eligible_of q k) (eligible_of c k) c b;
        eligible = refreshed-IsEligible q c s k bq b i (keyed k refl);
        frame = refresh-frame (eligible_of q k) (eligible_of c k) c;
      })

  module _ {q r c : Inner T} (x : Rekeyed q r c) where
    pub Rekeyed-frame :
        (r.entries ≡ c.entries)
        × (r.leases ≡ c.leases)
        × (r.cfg ≡ c.cfg)
        × (r.next_seq ≡ c.next_seq)
        × (r.available ≡ c.available)
        × (r.bytes ≡ c.bytes)
        × (r.leased_bytes ≡ c.leased_bytes)
    Rekeyed-frame = (
      ap (λ z. z.entries) x.frame,
      ap (λ z. z.leases) x.frame,
      ap (λ z. z.cfg) x.frame,
      ap (λ z. z.next_seq) x.frame,
      ap (λ z. z.available) x.frame,
      ap (λ z. z.bytes) x.frame,
      ap (λ z. z.leased_bytes) x.frame,
    )

    pub Rekeyed-HoldsLeases : HoldsLeases c → HoldsLeases r
    Rekeyed-HoldsLeases l =
        subst HoldsLeases (sym x.frame)
          (record { leases_sorted = l.leases_sorted; leases_are = l.leases_are })
