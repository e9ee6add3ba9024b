-- ===== src/Containers/OrderedMap.antt =====
-- `BTreeMap<u64, V>`: pairs whose keys grow strictly.
use tgin.Prelude.{
  ℕ, suc, ◌+◌, ◌≤◌, ◌<◌, ◌≡◌, refl, Option, none, some, List, [], ◌∷◌, ltb, ◌==◌, if◌then◌else◌,
  length, arith,
}

module _ {ℓ} {V : Type ℓ} where
  unfoldable pub get : ℕ → List (ℕ × V) → Option V
  get k [] = none
  get k ((j, v) ∷ m) = if k == j then some v else get k m

  unfoldable pub insert : ℕ → V → List (ℕ × V) → List (ℕ × V)
  insert k v [] = (k, v) ∷ []
  insert k v ((j, w) ∷ m) =
      if k == j then (k, v) ∷ m else if ltb k j then (k, v) ∷ (j, w) ∷ m else (j, w) ∷ insert k v m

  unfoldable pub remove : ℕ → List (ℕ × V) → List (ℕ × V)
  remove k [] = []
  remove k ((j, v) ∷ m) = if k == j then m else (j, v) ∷ remove k m

  -- Every key is at least `n`, and each is below the next.
  abbrev pub IsAbove : ℕ → List (ℕ × V) → Type 0
  IsAbove n [] = Unit {0}
  IsAbove n ((j, v) ∷ m) = (n ≤ j) × IsAbove (suc j) m

  abbrev pub IsSorted : List (ℕ × V) → Type 0
  IsSorted m = IsAbove 0 m

  pub IsAbove-mono : (n k : ℕ) (m : List (ℕ × V)) → n ≤ k → IsAbove k m → IsAbove n m
  IsAbove-mono n k [] h a = tt
  IsAbove-mono n k ((j, v) ∷ m) h a = (omega arith, a.1)

  pub get_below : (n k : ℕ) (m : List (ℕ × V)) → IsAbove n m → k < n → get k m ≡ none
  unfolding get
  get_below n k [] a h = refl
  get_below n k ((j, v) ∷ m) a h = ground (arith, get_below (suc j) k m a.1)

  pub get-insert :
      (j k : ℕ) (v : V) (m : List (ℕ × V))
      → get j (insert k v m) ≡ (if j == k then some v else get j m)
  unfolding get insert
  get-insert j k v [] = refl
  get-insert j k v ((i, w) ∷ m) = ground (arith, get-insert j k v m)

  get-remove_above :
      (n j k : ℕ) (m : List (ℕ × V))
      → IsAbove n m
      → get j (remove k m) ≡ (if j == k then none else get j m)
  unfolding get remove
  get-remove_above n j k [] a = ground arith
  get-remove_above n j k ((i, w) ∷ m) a =
      ground (arith, get-remove_above (suc i) j k m a.1, get_below (suc i) j m a.1)

  pub get-remove :
      (j k : ℕ) (m : List (ℕ × V))
      → IsSorted m
      → get j (remove k m) ≡ (if j == k then none else get j m)
  get-remove j k m a = get-remove_above 0 j k m a

  insert-IsAbove :
      (n k : ℕ) (v : V) (m : List (ℕ × V)) → n ≤ k → IsAbove n m → IsAbove n (insert k v m)
  unfolding insert
  insert-IsAbove n k v [] h a = (h, tt)
  insert-IsAbove n k v ((j, w) ∷ m) h a = ground (arith, insert-IsAbove (suc j) k v m)

  pub insert-IsSorted : (k : ℕ) (v : V) (m : List (ℕ × V)) → IsSorted m → IsSorted (insert k v m)
  insert-IsSorted k v m a = insert-IsAbove 0 k v m (omega arith) a

  remove-IsAbove : (n k : ℕ) (m : List (ℕ × V)) → IsAbove n m → IsAbove n (remove k m)
  unfolding remove
  remove-IsAbove n k [] a = tt
  remove-IsAbove n k ((j, w) ∷ m) a =
      ground (arith, remove-IsAbove (suc j) k m a.1, IsAbove-mono n (suc j) m)

  pub remove-IsSorted : (k : ℕ) (m : List (ℕ × V)) → IsSorted m → IsSorted (remove k m)
  remove-IsSorted k m a = remove-IsAbove 0 k m a

  -- A weight summed over the values. One law for each operation serves every count.
  unfoldable pub sum : (V → ℕ) → List (ℕ × V) → ℕ
  sum w [] = 0
  sum w ((j, v) ∷ m) = w v + sum w m

  abbrev pub weight : (V → ℕ) → Option V → ℕ
  weight w none = 0
  weight w (some v) = w v

  sum-insert_above :
      (w : V → ℕ) (n k : ℕ) (v : V) (m : List (ℕ × V))
      → IsAbove n m
      → sum w (insert k v m) + weight w (get k m) ≡ sum w m + w v
  unfolding sum insert get
  sum-insert_above w n k v [] a = omega arith
  sum-insert_above w n k v ((j, u) ∷ m) a =
      ground (arith, sum-insert_above w (suc j) k v m a.1, get_below (suc j) k m a.1)

  pub sum-insert :
      (w : V → ℕ) (k : ℕ) (v : V) (m : List (ℕ × V))
      → IsSorted m
      → sum w (insert k v m) + weight w (get k m) ≡ sum w m + w v
  sum-insert w k v m a = sum-insert_above w 0 k v m a

  pub sum-remove :
      (w : V → ℕ) (k : ℕ) (m : List (ℕ × V)) → sum w (remove k m) + weight w (get k m) ≡ sum w m
  unfolding sum remove get
  sum-remove w k [] = refl
  sum-remove w k ((j, u) ∷ m) = ground (arith, sum-remove w k m)

  pub length-sum : (m : List (ℕ × V)) → length m ≡ sum (λ _. 1) m
  unfolding sum
  length-sum [] = refl
  length-sum ((j, u) ∷ m) = omega (arith, length-sum m)

  pub sum_mono : (w u : V → ℕ) (m : List (ℕ × V)) → ((v : V) → w v ≤ u v) → sum w m ≤ sum u m
  unfolding sum
  sum_mono w u [] h = omega arith
  sum_mono w u ((j, v) ∷ m) h = omega (arith, h v, sum_mono w u m h)

  pub weight-le-sum : (w : V → ℕ) (k : ℕ) (m : List (ℕ × V)) → weight w (get k m) ≤ sum w m
  weight-le-sum w k m = omega (arith, sum-remove w k m)
