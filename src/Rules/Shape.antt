-- ===== src/Rules/Shape.antt =====
-- What stands in the arena for a target, and how the arena grows.
use tgin.Prelude.{
  ℕ, ◌-◌, ◌≤◌, ◌<◌, ◌≡◌, refl, sym, ap, true, some, List, [], ◌∷◌, ◌++◌, leb, length, length-append,
  get_elem?, take, drop, arith,
}
use tgin.Rules.Spec.{TargetSpec, TargetSpecs, consumer, all, split, nil, cons}
use tgin.Rules.Schedule.{AllBelow}
use tgin.Rules.Table.{Node, Range, Builder, slice}
use tgin.Rules.Targets.{count}

-- The node at an index stands for the target, its children at smaller indices.
unfoldable mutual
  pub Represents : List Node → List ℕ → ℕ → TargetSpec → Type 0
  Represents nodes children i (consumer id) = get_elem? nodes i ≡ some (Node.consumer id)
  Represents nodes children i (all specs) =
      (range : Range) × (get_elem? nodes i ≡ some (Node.all range))
      × RepresentsAll nodes children i (slice range children) specs
  Represents nodes children i (split strategy among weights) =
      (range : Range) × (schedule : List ℕ) × (get_elem? nodes i
        ≡ some (Node.split strategy range schedule))
      × RepresentsAll nodes children i (slice range children) among
      × AllBelow (count among) schedule
      × (0 < count among)

  pub RepresentsAll : List Node → List ℕ → ℕ → List ℕ → TargetSpecs → Type 0
  RepresentsAll nodes children i ids nil = ids ≡ []
  RepresentsAll nodes children i [] (cons spec specs) = ⊥
  RepresentsAll nodes children i (j ∷ ids) (cons spec specs) =
      (j < i) × Represents nodes children j spec × RepresentsAll nodes children i ids specs

pub record Grows (b c : Builder) : Type 0 where
  pub more_nodes : List Node
  pub more_children : List ℕ
  pub nodes_are : c.nodes ≡ b.nodes ++ more_nodes
  pub children_are : c.children ≡ b.children ++ more_children

pub append_assoc {ℓ} : {A : Type ℓ} (xs ys zs : List A) → (xs ++ ys) ++ zs ≡ xs ++ (ys ++ zs)
append_assoc [] ys zs = refl
append_assoc (x ∷ xs) ys zs = ap (λ l. x ∷ l) (append_assoc xs ys zs)

pub append-nil {ℓ} : {A : Type ℓ} (xs : List A) → xs ++ [] ≡ xs
append-nil [] = refl
append-nil (x ∷ xs) = ap (λ l. x ∷ l) (append-nil xs)

pub Grows-refl : (b : Builder) → Grows b b
Grows-refl b = record {
  more_nodes = [];
  more_children = [];
  nodes_are = sym (append-nil b.nodes);
  children_are = sym (append-nil b.children);
}

pub Grows-trans : {b c d : Builder} → Grows b c → Grows c d → Grows b d
Grows-trans {b} {c} {d} g h = record {
  more_nodes = g.more_nodes ++ h.more_nodes;
  more_children = g.more_children ++ h.more_children;
  nodes_are = rw (h.nodes_are, g.nodes_are) (append_assoc b.nodes g.more_nodes h.more_nodes);
  children_are =
      rw (h.children_are, g.children_are) (append_assoc b.children g.more_children h.more_children);
}

pub Grows-nodes-le : {b c : Builder} → Grows b c → length b.nodes ≤ length c.nodes
Grows-nodes-le {b} {c} g = omega (arith, ap length g.nodes_are, length-append b.nodes g.more_nodes)

pub Grows-children-le : {b c : Builder} → Grows b c → length b.children ≤ length c.children
Grows-children-le {b} {c} g =
    omega (arith, ap length g.children_are, length-append b.children g.more_children)

-- The element after a prefix.
pub get_elem?-append {ℓ} :
    {A : Type ℓ} (xs : List A) (y : A) (zs : List A) → get_elem? (xs ++ y ∷ zs) (length xs) ≡ some y
get_elem?-append [] y zs = refl
get_elem?-append (x ∷ xs) y zs = get_elem?-append xs y zs

drop-append {ℓ} : {A : Type ℓ} (xs ys : List A) → drop (length xs) (xs ++ ys) ≡ ys
drop-append [] ys = refl
drop-append (x ∷ xs) ys = drop-append xs ys

take-append {ℓ} : {A : Type ℓ} (xs ys : List A) → take (length xs) (xs ++ ys) ≡ xs
take-append [] ys = refl
take-append (x ∷ xs) ys = ap (λ l. x ∷ l) (take-append xs ys)

pub slice-append :
    (xs ids zs : List ℕ)
    → slice (record { start = length xs; end = length (xs ++ ids) }) ((xs ++ ids) ++ zs) ≡ ids
unfolding slice
slice-append xs ids zs =
    let low : leb (length xs) (length (xs ++ ids)) ≡ true = ground (arith, length-append xs ids) in
    let high : leb (length (xs ++ ids)) (length ((xs ++ ids) ++ zs)) ≡ true =
      ground (arith, length-append (xs ++ ids) zs) in
    let size : length (xs ++ ids) - length xs ≡ length ids = omega (arith, length-append xs ids) in
    rw (low, high, size, append_assoc xs ids zs, drop-append) (take-append ids zs)
