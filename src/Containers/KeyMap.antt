-- ===== src/Containers/KeyMap.antt =====
-- `HashMap<K, V>`: pairs in no order that matters.
use tgin.Prelude.{
  ℕ, suc, ◌+◌, ◌%◌, ◌-◌, ◌^◌, ◌<◌, ◌≡◌, refl, ◌≢◌, Option, none, some, List, [], ◌∷◌, ◌==◌,
  if◌then◌else◌, is_empty, arith,
}
use tgin.Containers.OrderedSet
use tgin.Prelude.Eq.{EqTest}

module _ {ℓ κ} {K : Type κ} {V : Type ℓ} ⦃e : EqTest K⦄ where
  unfoldable pub get : K → List (K × V) → Option V
  get k [] = none
  get k ((j, v) ∷ m) = if e.eq j k then some v else get k m

  unfoldable pub insert : K → V → List (K × V) → List (K × V)
  insert k v [] = (k, v) ∷ []
  insert k v ((j, w) ∷ m) = if e.eq j k then (k, v) ∷ m else (j, w) ∷ insert k v m

  unfoldable pub remove : K → List (K × V) → List (K × V)
  remove k [] = []
  remove k ((j, v) ∷ m) = let rest = remove k m in if e.eq j k then rest else (j, v) ∷ rest

  pub get-insert :
      (j k : K) (v : V) (m : List (K × V))
      → get j (insert k v m) ≡ (if e.eq k j then some v else get j m)
  unfolding get insert
  get-insert j k v [] = refl
  get-insert j k v ((i, w) ∷ m) =
      ground (arith, e.eq_iff k j, e.eq_iff i k, e.eq_iff i j, get-insert j k v m)

  pub get-remove :
      (j k : K) (m : List (K × V)) → get j (remove k m) ≡ (if e.eq k j then none else get j m)
  unfolding get remove
  get-remove j k [] = ground arith
  get-remove j k ((i, v) ∷ m) =
      ground (arith, e.eq_iff k j, e.eq_iff i k, e.eq_iff i j, get-remove j k m)

-- `HashMap<K, BTreeSet<u64>>`, where a key whose set gets empty is taken out.
module _ {κ} {K : Type κ} ⦃e : EqTest K⦄ where
  abbrev pub set_of : K → List (K × List ℕ) → List ℕ
  set_of k m = elim (get k m) [ none ↦ [] | some s ↦ s ]

  -- `m.entry(k).or_default().insert(x)`, and the same with `extend`.
  unfoldable pub add_member : K → ℕ → List (K × List ℕ) → List (K × List ℕ)
  add_member k x m = insert k (OrderedSet.insert x (set_of k m)) m

  unfoldable pub add_members : K → List ℕ → List (K × List ℕ) → List (K × List ℕ)
  add_members k xs m = insert k (OrderedSet.extend xs (set_of k m)) m

  -- `if let Some(s) = m.get_mut(k) { s.remove(x); if s.is_empty() { m.remove(k); } }`
  unfoldable pub remove_member : K → ℕ → List (K × List ℕ) → List (K × List ℕ)
  remove_member k x m = elim (get k m) [
    | none ↦ m
    | some s ↦
        let rest = OrderedSet.remove x s in if is_empty rest then remove k m else insert k rest m
  ]

  pub set_of-add_member :
      (j k : K) (x : ℕ) (m : List (K × List ℕ))
      → set_of j (add_member k x m)
        ≡ (if e.eq k j then OrderedSet.insert x (set_of k m) else set_of j m)
  unfolding add_member
  set_of-add_member j k x m = ground (arith, get-insert j k (OrderedSet.insert x (set_of k m)) m)

  pub set_of-add_members :
      (j k : K) (xs : List ℕ) (m : List (K × List ℕ))
      → set_of j (add_members k xs m)
        ≡ (if e.eq k j then OrderedSet.extend xs (set_of k m) else set_of j m)
  unfolding add_members
  set_of-add_members j k xs m = ground (arith, get-insert j k (OrderedSet.extend xs (set_of k m)) m)

  pub set_of-remove_member :
      (j k : K) (x : ℕ) (m : List (K × List ℕ))
      → set_of j (remove_member k x m)
        ≡ (if e.eq k j then OrderedSet.remove x (set_of k m) else set_of j m)
  unfolding remove_member OrderedSet.remove
  set_of-remove_member j k x m =
      ground
        (arith, e.eq_iff k j, get-insert j k (OrderedSet.remove x (set_of k m)) m, get-remove j k m)

-- `HashMap<K, u32>`, where a key whose count gets to zero is taken out.
module _ {κ} {K : Type κ} ⦃e : EqTest K⦄ where
  abbrev pub count_of : K → List (K × ℕ) → ℕ
  count_of k m = elim (get k m) [ none ↦ 0 | some n ↦ n ]

  -- `*m.entry(k).or_default() += 1`
  unfoldable pub increment : K → List (K × ℕ) → List (K × ℕ)
  increment k m = insert k ((count_of k m + 1) % 2 ^ 32) m

  -- `if let Some(n) = m.get_mut(k) { *n -= 1; if *n == 0 { m.remove(k); } }`
  unfoldable pub decrement : K → List (K × ℕ) → List (K × ℕ)
  decrement k m = elim (get k m) [
    | none ↦ m
    | some n ↦
        let rest = (n + (2 ^ 32 - 1)) % 2 ^ 32 in if rest == 0 then remove k m else insert k rest m
  ]

  -- No key has the count zero.
  abbrev pub NonZero : List (K × ℕ) → Type κ
  NonZero m = (k : K) → get k m ≢ some 0

  pub get-increment :
      (j k : K) (m : List (K × ℕ))
      → count_of k m < 2 ^ 32 - 1
      → get j (increment k m) ≡ (if e.eq k j then some (count_of k m + 1) else get j m)
  unfolding increment
  get-increment j k m h = ground (arith, get-insert j k ((count_of k m + 1) % 2 ^ 32) m)

  pub get-decrement :
      (j k : K) (n : ℕ) (m : List (K × ℕ))
      → get k m ≡ some (suc n)
      → suc n < 2 ^ 32
      → get j (decrement k m) ≡ (if e.eq k j then (if n == 0 then none else some n) else get j m)
  unfolding decrement
  get-decrement j k n m h lt = ground (arith, get-insert j k n m, get-remove j k m)
