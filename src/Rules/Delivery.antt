-- ===== src/Rules/Delivery.antt =====
-- What `RouteTable::walk` of crates/tgin-core/src/rules/eval.rs delivers, against the target that the
-- table was compiled from.
use tgin.Prelude.{
  ℕ, zero, suc, ◌%◌, ◌≤◌, ◌<◌, ◌≡◌, refl, sym, ap, subst, ◌∙◌, false, Option, none, some, List, [],
  ◌∷◌, ◌++◌, if◌then◌else◌, length, get_elem?, is_empty, arith, inl, inr, ◌⊎◌,
}
use tgin.Prelude.Eq.{nat_eq, member}
use tgin.Rules.Spec.{
  TargetSpec, TargetSpecs, consumer, all, split, nil, cons, SplitStrategy, round_robin, hash_chat,
  weighted,
}
use tgin.Rules.Schedule.{AllBelow}
use tgin.Rules.Table.{Node, Range, slice}
use tgin.Rules.Targets.{count}
use tgin.Rules.Shape.{Represents, RepresentsAll}
use tgin.Rules.Walk.{Walk, each, push_new, pick, Pick, visit_at, walk}

-- What a target may deliver: every child of an `all`, one child of a `split`.
unfoldable mutual
  pub Delivers : TargetSpec → List ℕ → Type 0
  Delivers (consumer id) ids = ids ≡ id ∷ []
  Delivers (all specs) ids = DeliversAll specs ids
  Delivers (split strategy among weights) ids = DeliversOne among ids

  pub DeliversAll : TargetSpecs → List ℕ → Type 0
  DeliversAll nil ids = ids ≡ []
  DeliversAll (cons spec specs) ids =
      (first : List ℕ) × (rest : List ℕ) × (ids ≡ first ++ rest)
      × Delivers spec first
      × DeliversAll specs rest

  pub DeliversOne : TargetSpecs → List ℕ → Type 0
  DeliversOne nil ids = ⊥
  DeliversOne (cons spec specs) ids = Delivers spec ids ⊎ DeliversOne specs ids

-- Consumers added behind those that are there, each once.
unfoldable pub add_new : List ℕ → List ℕ → List ℕ
add_new [] out = out
add_new (id ∷ ids) out = add_new ids (if member id out then out else out ++ id ∷ [])

add_new-append : (xs ys out : List ℕ) → add_new (xs ++ ys) out ≡ add_new ys (add_new xs out)
unfolding add_new
add_new-append [] ys out = refl
add_new-append (x ∷ xs) ys out = add_new-append xs ys (if member x out then out else out ++ x ∷ [])

-- A walk that ends, with what it delivered.
pub record Delivered (P : List ℕ → Type 0) (s : Walk) (result : Option Walk) : Type 0 where
  pub final : Walk
  pub ids : List ℕ
  pub ends : result ≡ some final
  pub delivers : P ids
  pub out_is : final.out ≡ add_new ids s.out

get_elem?-lt : (xs : List ℕ) (i : ℕ) → i < length xs → (x : ℕ) × (get_elem? xs i ≡ some x)
get_elem?-lt [] i h = absurd (omega (arith, h))
get_elem?-lt (x ∷ xs) zero h = (x, refl)
get_elem?-lt (x ∷ xs) (suc i) h = get_elem?-lt xs i (omega (arith, h))

AllBelow-get_elem? :
    (n : ℕ) (xs : List ℕ) (i x : ℕ) → AllBelow n xs → get_elem? xs i ≡ some x → x < n
AllBelow-get_elem? n [] i x a h = absurd (cc)
AllBelow-get_elem? n (y ∷ ys) zero x a h = ground (arith, h, a.0)
AllBelow-get_elem? n (y ∷ ys) (suc i) x a h = AllBelow-get_elem? n ys i x a.1 h

-- A pick is the position of a child, and delivers nothing.
pick-lt :
    (node : ℕ) (strategy : SplitStrategy) (len : ℕ) (schedule : List ℕ) (key : Option ℕ) (s : Walk)
    → 0 < len
    → AllBelow len schedule
    → ((pick node strategy len schedule key s).position < len)
      × ((pick node strategy len schedule key s).after.out ≡ s.out)
unfolding pick
pick-lt node round_robin len schedule key s h a = (omega (arith, h), refl)
pick-lt node hash_chat len schedule none s h a = (omega (arith, h), refl)
pick-lt node hash_chat len schedule (some key) s h a = (omega (arith, h), refl)
pick-lt node weighted len [] key s h a = (omega (arith, h), refl)
pick-lt node weighted len (x ∷ xs) key s h a =
    let turn = s.cursors node % length (x ∷ xs) in
    let (found, at) = get_elem?-lt (x ∷ xs) turn (omega arith) in
    let below = AllBelow-get_elem? len (x ∷ xs) turn found a at in (ground (arith, at, below), refl)

nonempty : (xs : List ℕ) → 0 < length xs → is_empty xs ≡ false
nonempty [] h = absurd (omega (arith, h))
nonempty (x ∷ xs) h = refl

at_least_one : (i fuel : ℕ) → i < fuel → (n : ℕ) × (fuel ≡ suc n)
at_least_one i zero h = absurd (omega (arith, h))
at_least_one i (suc n) h = (n, refl)

visit_at-found :
    (visit : ℕ → Option ℕ → Walk → Option Walk) (ids : List ℕ) (p : Pick) (child : ℕ)
    → get_elem? ids p.position ≡ some child
    → visit_at visit ids p ≡ visit child p.child_key p.after
visit_at-found visit ids p child found = rw (found, visit_at) refl

-- The same walk, under a weaker promise.
Delivered-map :
    {P Q : List ℕ → Type 0} {s : Walk} {result : Option Walk}
    → ((ids : List ℕ) → P ids → Q ids)
    → Delivered P s result
    → Delivered Q s result
Delivered-map f d = record {
  final = d.final;
  ids = d.ids;
  ends = d.ends;
  delivers = f d.ids d.delivers;
  out_is = d.out_is;
}

count-length :
    (nodes : List Node) (children : List ℕ) (i : ℕ) (ids : List ℕ) (specs : TargetSpecs)
    → RepresentsAll nodes children i ids specs
    → length ids ≡ count specs
unfolding Represents
count-length nodes children i [] nil r = refl
count-length nodes children i (j ∷ ids) nil r = absurd (cc)
count-length nodes children i [] (cons spec specs) r = absurd r
count-length nodes children i (j ∷ ids) (cons spec specs) r =
    omega (arith, count-length nodes children i ids specs r.2)

module _ (nodes : List Node) (children : List ℕ) where
  -- The children of a group that has one.
  cons-Represents :
      (i : ℕ) (ids : List ℕ) (spec : TargetSpec) (specs : TargetSpecs)
      → RepresentsAll nodes children i ids (cons spec specs)
      → (j : ℕ) × (rest : List ℕ) × (ids ≡ j ∷ rest)
        × (j < i)
        × Represents nodes children j spec
        × RepresentsAll nodes children i rest specs
  unfolding Represents
  cons-Represents i [] spec specs r = absurd r
  cons-Represents i (j ∷ ids) spec specs (lt, here, rest) = (j, ids, refl, lt, here, rest)

  abbrev pub Target : TargetSpec → ℕ → Type 0
  Target spec i =
      (fuel : ℕ) (key : Option ℕ) (s : Walk)
      → i < fuel
      → Delivered (Delivers spec) s (walk nodes children fuel i key s)

  consumer-Delivered :
      (id n i : ℕ) (key : Option ℕ) (s : Walk)
      → get_elem? nodes i ≡ some (Node.consumer id)
      → Delivered (Delivers (consumer id)) s (walk nodes children (suc n) i key s)
  unfolding walk Delivers add_new push_new
  consumer-Delivered id n i key s at =
      rw (at, walk)
        (record {
          final = push_new id s;
          ids = id ∷ [];
          ends = refl;
          delivers = refl;
          out_is = ground arith;
        })

  all-Delivered :
      (specs : TargetSpecs) (range : Range) (n i : ℕ) (key : Option ℕ) (s : Walk)
      → get_elem? nodes i ≡ some (Node.all range)
      → Delivered
          (DeliversAll specs)
          s
          (each (λ child. walk nodes children n child key) (slice range children) s)
      → Delivered (Delivers (all specs)) s (walk nodes children (suc n) i key s)
  unfolding walk Delivers
  all-Delivered specs range n i key s at d =
      rw (at, walk)
        (record {
          final = d.final;
          ids = d.ids;
          ends = d.ends;
          delivers = d.delivers;
          out_is = d.out_is;
        })

  -- What is known of one child of a group.
  abbrev Child : TargetSpecs → ℕ → ℕ → Type 0
  Child specs n child =
      (key : Option ℕ) (s : Walk)
      → Delivered (DeliversOne specs) s (walk nodes children n child key s)

  walk-split :
      (strategy : SplitStrategy) (range : Range) (schedule : List ℕ) (n i : ℕ) (key : Option ℕ)
      (s : Walk) (child : ℕ)
      → get_elem? nodes i ≡ some (Node.split strategy range schedule)
      → is_empty (slice range children) ≡ false
      → let p = pick i strategy (length (slice range children)) schedule key s in
        get_elem? (slice range children) p.position ≡ some child
        → walk nodes children (suc n) i key s ≡ walk nodes children n child p.child_key p.after
  unfolding walk
  walk-split strategy range schedule n i key s child at full found =
      rw (at, walk, full)
        (visit_at-found (walk nodes children n) (slice range children)
          (pick i strategy (length (slice range children)) schedule key s) child found)

  split-Delivered :
      (strategy : SplitStrategy) (among : TargetSpecs) (weights : List ℕ) (range : Range)
      (schedule : List ℕ) (n i : ℕ) (key : Option ℕ) (s : Walk)
      → get_elem? nodes i ≡ some (Node.split strategy range schedule)
      → length (slice range children) ≡ count among
      → AllBelow (count among) schedule
      → 0 < count among
      → ((p : ℕ)
          → p < count among
          → (child : ℕ) × (get_elem? (slice range children) p ≡ some child) × Child among n child)
      → Delivered (Delivers (split strategy among weights)) s (walk nodes children (suc n) i key s)
  unfolding walk Delivers
  split-Delivered strategy among weights range schedule n i key s at size below some_child kids =
      let ids = slice range children in
      let full : is_empty ids ≡ false = nonempty ids (omega (arith, size, some_child)) in
      let p = pick i strategy (length ids) schedule key s in
      let (lt, same) =
        pick-lt i strategy (length ids) schedule key s (omega (arith, size, some_child))
          (subst (λ k. AllBelow k schedule) (sym size) below) in
      let (child, found, run) = kids p.position (omega (arith, lt, size)) in
      let d = run p.child_key p.after in
      let steps = walk-split strategy range schedule n i key s child at full found in
      subst (Delivered (DeliversOne among) s) (sym steps) (record {
        final = d.final;
        ids = d.ids;
        ends = d.ends;
        delivers = d.delivers;
        out_is = d.out_is ∙ ap (add_new d.ids) same;
      })

  each-cons :
      (spec : TargetSpec) (specs : TargetSpecs) (n j : ℕ) (rest : List ℕ) (key : Option ℕ)
      (s : Walk)
      → Delivered (Delivers spec) s (walk nodes children n j key s)
      → ((t : Walk)
          → Delivered
              (DeliversAll specs)
              t
              (each (λ child. walk nodes children n child key) rest t))
      → Delivered
          (DeliversAll (cons spec specs))
          s
          (each (λ child. walk nodes children n child key) (j ∷ rest) s)
  unfolding each Delivers
  each-cons spec specs n j rest key s d others =
      let f = others d.final in
      record {
        final = f.final;
        ids = d.ids ++ f.ids;
        ends = rw (d.ends) (f.ends);
        delivers = (d.ids, f.ids, refl, d.delivers, f.delivers);
        out_is = f.out_is ∙ (ap (add_new f.ids) d.out_is ∙ sym (add_new-append d.ids f.ids s.out));
      }

  Child-cons :
      (spec : TargetSpec) (specs : TargetSpecs) (n j : ℕ) (rest : List ℕ) (p : ℕ)
      → p < suc (count specs)
      → ((key : Option ℕ) (s : Walk) → Delivered (Delivers spec) s (walk nodes children n j key s))
      → ((q : ℕ)
          → q < count specs
          → (child : ℕ) × (get_elem? rest q ≡ some child) × Child specs n child)
      → (child : ℕ) × (get_elem? (j ∷ rest) p ≡ some child) × Child (cons spec specs) n child
  unfolding Delivers
  Child-cons spec specs n j rest zero lt first others =
      (j, refl, λ key s. Delivered-map (λ ids d. inl d) (first key s))
  Child-cons spec specs n j rest (suc q) lt first others =
      let (child, found, run) = others q (omega (arith, lt)) in
      (child, found, λ key s. Delivered-map (λ ids d. inr d) (run key s))

  mutual
    unfolding Represents Delivers each add_new

    pub walk-Delivered :
        (spec : TargetSpec) (i : ℕ) → Represents nodes children i spec → Target spec i
    walk-Delivered (consumer id) i at fuel key s h =
        let (n, e) = at_least_one i fuel h in
        subst (λ f. Delivered (Delivers (consumer id)) s (walk nodes children f i key s)) (sym e)
          (consumer-Delivered id n i key s at)
    walk-Delivered (all specs) i (range, at, kids) fuel key s h =
        let (n, e) = at_least_one i fuel h in
        subst (λ f. Delivered (Delivers (all specs)) s (walk nodes children f i key s)) (sym e)
          (all-Delivered specs range n i key s at
            (each-Delivered specs i (slice range children) kids n key s (omega (arith, h, e))))
    walk-Delivered (split strategy among weights) i (range, schedule, at, kids, below, some_child)
          fuel key s h =
        let (n, e) = at_least_one i fuel h in
        subst
          (λ f.
            Delivered (Delivers (split strategy among weights)) s (walk nodes children f i key s))
          (sym e)
          (split-Delivered strategy among weights range schedule n i key s at
            (count-length nodes children i (slice range children) among kids) below some_child
            (λ p lt.
              Child-Delivered among i (slice range children) kids n p (omega (arith, h, e)) lt))

    each-Delivered :
        (specs : TargetSpecs) (i : ℕ) (ids : List ℕ)
        → RepresentsAll nodes children i ids specs
        → (n : ℕ) (key : Option ℕ) (s : Walk) → i ≤ n
        → Delivered (DeliversAll specs) s (each (λ child. walk nodes children n child key) ids s)
    each-Delivered nil i ids r n key s h =
        subst
          (λ l. Delivered (DeliversAll nil) s (each (λ child. walk nodes children n child key) l s))
          (sym r) (record { final = s; ids = []; ends = refl; delivers = refl; out_is = refl })
    each-Delivered (cons spec specs) i ids r n key s h =
        let (j, rest, same, lt, here, others) = cons-Represents i ids spec specs r in
        subst
          (λ l.
            Delivered (DeliversAll (cons spec specs)) s
              (each (λ child. walk nodes children n child key) l s))
          (sym same)
          (each-cons spec specs n j rest key s
            (walk-Delivered spec j here n key s (omega (arith, lt, h)))
            (λ t. each-Delivered specs i rest others n key t h))

    Child-Delivered :
        (specs : TargetSpecs) (i : ℕ) (ids : List ℕ)
        → RepresentsAll nodes children i ids specs
        → (n p : ℕ) → i ≤ n
        → p < count specs
        → (child : ℕ) × (get_elem? ids p ≡ some child) × Child specs n child
    Child-Delivered nil i ids r n p h lt = absurd (omega (arith, lt))
    Child-Delivered (cons spec specs) i ids r n p h lt =
        let (j, rest, same, below, here, others) = cons-Represents i ids spec specs r in
        subst (λ l. (child : ℕ) × (get_elem? l p ≡ some child) × Child (cons spec specs) n child)
          (sym same)
          (Child-cons spec specs n j rest p lt
            (λ key s. walk-Delivered spec j here n key s (omega (arith, below, h)))
            (λ q k. Child-Delivered specs i rest others n q h k))
