-- ===== src/Limit/Keyed.antt =====
-- `KeyedLimiter` of crates/tgin-runtime/src/limit.rs. The hash of a key is the parameter `hash`, as
-- the limiter's random hasher computes it; `last` is the platform's last instant.
use tgin.Prelude.{
  ℕ, ◌+◌, ◌%◌, ◌≡◌, refl, ap, Bool, true, Option, none, some, List, [], ◌∷◌, ◌==◌, ltb,
  if◌then◌else◌, length, zero, suc, arith, Result, ok, err,
}
use tgin.Prelude.Eq.{EqTest}
use tgin.Prelude.Words.{wrapping_add}
use tgin.Containers.KeyMap
use tgin.Limit.Quota.{Quota, Tat, at, never, Denied, book}

pub record Entry : Type 0 where
  pub tat : Tat
  pub stamp : ℕ

pub record Shard (K : Type 0) : Type 0 where
  pub map : List (K × Entry)
  pub next_stamp : ℕ

pub record Admit : Type 0 where
  pub delay : ℕ
  pub stamp : ℕ
  pub prev : Option Entry

-- The shard at each index below `shard_count`.
pub record KeyedLimiter (K : Type 0) : Type 0 where
  pub quota : Quota
  pub shards : ℕ → Shard K

abbrev pub shard_count : ℕ
shard_count = 16

abbrev pub tat_of : Option Entry → Option Tat
tat_of none = none
tat_of (some entry) = some entry.tat

-- The closure of `retain_recent`.
abbrev pub is_recent : ℕ → Tat → Bool
is_recent now (at tat) = ltb now tat
is_recent now never = true

module _ {K : Type 0} ⦃e : EqTest K⦄ (hash : K → ℕ) where
  unfoldable pub new : Quota → KeyedLimiter K
  new quota = record { quota = quota; shards = λ _. record { map = []; next_stamp = 0 } }

  abbrev pub index : K → ℕ
  index key = hash key % 16

  abbrev pub shard : K → KeyedLimiter K → Shard K
  shard key l = l.shards (index key)

  -- The entry of a key.
  abbrev pub entry : K → KeyedLimiter K → Option Entry
  entry key l = KeyMap.get key (shard key l).map

  abbrev pub with_shard : K → Shard K → KeyedLimiter K → KeyedLimiter K
  with_shard key s l = record l { shards = λ j. if j == index key then s else l.shards j }

  -- What `acquire` does with the answer of `book`. The arms of its `match` differ in `prev`.
  unfoldable pub settle :
      K → KeyedLimiter K → Result Denied (Tat × ℕ) → KeyedLimiter K × Result Denied Admit
  settle key l (err denied) = (l, err denied)
  settle key l (ok (tat, delay)) =
      let s = shard key l in
      (
        with_shard key
            (record {
              map = KeyMap.insert key (record { tat = tat; stamp = s.next_stamp }) s.map;
              next_stamp = wrapping_add s.next_stamp 1;
            })
            l,
        ok (record { delay = delay; stamp = s.next_stamp; prev = entry key l }),
      )

  unfoldable pub acquire : ℕ → K → ℕ → ℕ → KeyedLimiter K → KeyedLimiter K × Result Denied Admit
  unfolding settle book
  acquire last key now max_delay l =
      settle key l (book last l.quota (tat_of (entry key l)) now max_delay)

  abbrev pub restored : K → Option Entry → List (K × Entry) → List (K × Entry)
  restored key none m = KeyMap.remove key m
  restored key (some prev) m = KeyMap.insert key prev m

  unfoldable pub cancel : K → Admit → KeyedLimiter K → KeyedLimiter K
  cancel key admit l = elim (entry key l) [
    | none ↦ l
    | some current ↦
        if current.stamp == admit.stamp
        then with_shard key
            (record (shard key l) { map = restored key admit.prev (shard key l).map }) l
        else l
  ]

  -- `HashMap::retain`; a pair behind another of its key goes with it.
  unfoldable pub retain : (Entry → Bool) → List (K × Entry) → List (K × Entry)
  retain p [] = []
  retain p ((key, v) ∷ m) =
      let rest = retain p m in if p v then (key, v) ∷ rest else KeyMap.remove key rest

  unfoldable pub retain_recent : ℕ → KeyedLimiter K → KeyedLimiter K
  unfolding retain
  retain_recent now l = record l {
    shards = λ j. record (l.shards j) { map = retain (λ v. is_recent now v.tat) (l.shards j).map };
  }

  -- `len`, over the first `n` shards.
  unfoldable pub len_each : ℕ → KeyedLimiter K → ℕ
  len_each zero l = 0
  len_each (suc n) l = length (l.shards n).map + len_each n l

  unfoldable pub len : KeyedLimiter K → ℕ
  unfolding len_each
  len l = len_each 16 l

  -- Every key's entry after a shard's map got one more pair.
  pub entry-insert :
      (j key : K) (v : Entry) (stamp : ℕ) (l : KeyedLimiter K)
      → entry j (
          with_shard key
            (record { map = KeyMap.insert key v (shard key l).map; next_stamp = stamp })
            l)
        ≡ (if e.eq key j then some v else entry j l)
  entry-insert j key v stamp l = ground (
    arith,
    e.eq_iff key j,
    ap hash {x = key} {y = j},
    KeyMap.get-insert j key v (shard key l).map,
  )

  pub entry-remove :
      (j key : K) (stamp : ℕ) (l : KeyedLimiter K)
      → entry j (
          with_shard key
            (record { map = KeyMap.remove key (shard key l).map; next_stamp = stamp })
            l)
        ≡ (if e.eq key j then none else entry j l)
  entry-remove j key stamp l =
      ground (
        arith,
        e.eq_iff key j,
        ap hash {x = key} {y = j},
        KeyMap.get-remove j key (shard key l).map,
      )

  get-retain :
      (p : Entry → Bool) (j : K) (m : List (K × Entry))
      → KeyMap.get j (retain p m)
        ≡ (elim (KeyMap.get j m) [ none ↦ none | some v ↦ if p v then some v else none ])
  unfolding retain KeyMap.get
  get-retain p j [] = refl
  get-retain p j ((key, v) ∷ m) =
      ground (arith, e.eq_iff key j, get-retain p j m, KeyMap.get-remove j key (retain p m))

  pub entry-retain_recent :
      (now : ℕ) (j : K) (l : KeyedLimiter K)
      → entry j (retain_recent now l)
        ≡ (elim (entry j l) [ none ↦ none | some v ↦ if is_recent now v.tat then some v else none ])
  unfolding retain_recent
  entry-retain_recent now j l = get-retain (λ v. is_recent now v.tat) j (shard j l).map
