-- ===== src/Containers/OrderedSet.antt =====
-- `BTreeSet<u64>`: a list that grows strictly. A function has one law in `if` form.
use tgin.Prelude.{
  ℕ, zero, suc, ◌≤◌, ◌<◌, ◌≡◌, refl, Bool, true, false, ◌||◌, none, some, List, [], ◌∷◌, ltb, ◌==◌,
  if◌then◌else◌, length, head?, take, arith,
}

unfoldable pub contains : ℕ → List ℕ → Bool
contains x [] = false
contains x (y ∷ ys) = x == y || contains x ys

unfoldable pub insert : ℕ → List ℕ → List ℕ
insert x [] = x ∷ []
insert x (y ∷ ys) = if x == y then y ∷ ys else if ltb x y then x ∷ y ∷ ys else y ∷ insert x ys

unfoldable pub remove : ℕ → List ℕ → List ℕ
remove x [] = []
remove x (y ∷ ys) = if x == y then ys else y ∷ remove x ys

-- `extend`, by the elements in turn.
unfoldable pub extend : List ℕ → List ℕ → List ℕ
extend [] s = s
extend (x ∷ xs) s = extend xs (insert x s)

-- Every element is at least `n`, and each is below the next.
abbrev pub IsAbove : ℕ → List ℕ → Type 0
IsAbove n [] = Unit {0}
IsAbove n (x ∷ xs) = (n ≤ x) × IsAbove (suc x) xs

abbrev pub IsSorted : List ℕ → Type 0
IsSorted s = IsAbove 0 s

pub IsAbove-mono : (m n : ℕ) (s : List ℕ) → m ≤ n → IsAbove n s → IsAbove m s
IsAbove-mono m n [] h a = tt
IsAbove-mono m n (x ∷ xs) h a = (omega arith, a.1)

pub contains_below : (n j : ℕ) (s : List ℕ) → IsAbove n s → j < n → contains j s ≡ false
unfolding contains
contains_below n j [] a h = refl
contains_below n j (x ∷ xs) a h = ground (arith, contains_below (suc x) j xs a.1)

pub contains-insert :
    (j x : ℕ) (s : List ℕ) → contains j (insert x s) ≡ (if j == x then true else contains j s)
unfolding contains insert
contains-insert j x [] = ground arith
contains-insert j x (y ∷ ys) = ground (arith, contains-insert j x ys)

pub contains-remove_above :
    (n j x : ℕ) (s : List ℕ)
    → IsAbove n s
    → contains j (remove x s) ≡ (if j == x then false else contains j s)
unfolding contains remove
contains-remove_above n j x [] a = ground arith
contains-remove_above n j x (y ∷ ys) a =
    ground (arith, contains-remove_above (suc y) j x ys a.1, contains_below (suc y) j ys a.1)

pub contains-remove :
    (j x : ℕ) (s : List ℕ)
    → IsSorted s
    → contains j (remove x s) ≡ (if j == x then false else contains j s)
contains-remove j x s a = contains-remove_above 0 j x s a

insert-IsAbove : (n x : ℕ) (s : List ℕ) → n ≤ x → IsAbove n s → IsAbove n (insert x s)
unfolding insert
insert-IsAbove n x [] h a = (h, tt)
insert-IsAbove n x (y ∷ ys) h a = ground (arith, insert-IsAbove (suc y) x ys)

pub insert-IsSorted : (x : ℕ) (s : List ℕ) → IsSorted s → IsSorted (insert x s)
insert-IsSorted x s a = insert-IsAbove 0 x s (omega arith) a

remove-IsAbove : (n x : ℕ) (s : List ℕ) → IsAbove n s → IsAbove n (remove x s)
unfolding remove
remove-IsAbove n x [] a = tt
remove-IsAbove n x (y ∷ ys) a =
    ground (arith, remove-IsAbove (suc y) x ys a.1, IsAbove-mono n (suc y) ys)

pub remove-IsSorted : (x : ℕ) (s : List ℕ) → IsSorted s → IsSorted (remove x s)
remove-IsSorted x s a = remove-IsAbove 0 x s a

pub length-insert :
    (x n : ℕ) (s : List ℕ)
    → IsAbove n s
    → length (insert x s) ≡ (if contains x s then length s else suc (length s))
unfolding insert contains
length-insert x n [] a = refl
length-insert x n (y ∷ ys) a =
    ground (arith, length-insert x (suc y) ys a.1, contains_below (suc y) x ys a.1)

pub length-remove :
    (x : ℕ) (s : List ℕ)
    → (if contains x s then suc (length (remove x s)) else length (remove x s)) ≡ length s
unfolding remove contains
length-remove x [] = refl
length-remove x (y ∷ ys) = ground (arith, length-remove x ys)

pub contains-extend :
    (j : ℕ) (xs s : List ℕ) → contains j (extend xs s) ≡ (contains j xs || contains j s)
unfolding extend contains
contains-extend j [] s = refl
contains-extend j (x ∷ xs) s =
    ground (arith, contains-extend j xs (insert x s), contains-insert j x s)

pub extend-IsSorted : (xs s : List ℕ) → IsSorted s → IsSorted (extend xs s)
unfolding extend
extend-IsSorted [] s a = a
extend-IsSorted (x ∷ xs) s a = extend-IsSorted xs (insert x s) (insert-IsSorted x s a)

-- The first element is the least.
pub head-least :
    (m j : ℕ) (s : List ℕ)
    → IsSorted s
    → head? s ≡ some m
    → (contains m s ≡ true) × (contains j s ≡ true → m ≤ j)
unfolding contains
head-least m j [] a e = ground arith
head-least m j (x ∷ xs) a e = (ground arith, λ h. ground (arith, contains_below (suc x) j xs a.1))

pub head-none : (j : ℕ) (s : List ℕ) → head? s ≡ none → contains j s ≡ false
unfolding contains
head-none j [] e = refl
head-none j (x ∷ xs) e = ground arith

-- What a `take` holds was there.
pub contains-take : (j n : ℕ) (s : List ℕ) → contains j (take n s) ≡ true → contains j s ≡ true
unfolding contains
contains-take j zero s h = ground arith
contains-take j (suc n) [] h = h
contains-take j (suc n) (x ∷ xs) h = ground (arith, contains-take j n xs)

pub take-IsAbove : (k n : ℕ) (s : List ℕ) → IsAbove n s → IsAbove n (take k s)
take-IsAbove zero n s a = tt
take-IsAbove (suc k) n [] a = tt
take-IsAbove (suc k) n (x ∷ xs) a = (a.0, take-IsAbove k (suc x) xs a.1)
