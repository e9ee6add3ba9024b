-- ===== src/Rules/Compiled.antt =====
-- What `Builder::target` of crates/tgin-core/src/rules/compile.rs builds.
use tgin.Prelude.{
  ℕ, suc, ◌+◌, ◌≤◌, ◌<◌, ◌≡◌, refl, sym, subst, ◌∙◌, some, List, [], ◌∷◌, ◌++◌, length,
  length-append, get_elem?, arith, Result, ok, ok-bind, ok-cancel,
}
use tgin.Prelude.Words.{u32_max}
use tgin.Rules.Spec.{
  TargetSpec, TargetSpecs, consumer, all, split, nil, cons, SplitStrategy, InvalidRule,
}
use tgin.Rules.Schedule.{index}
use tgin.Rules.Table.{Node, Range, Builder, slice}
use tgin.Rules.Targets.{count, target, targets, push, grouped, stored, split_node, split_schedule}
use tgin.Rules.Shape.{
  Grows, Grows-refl, Grows-trans, Grows-nodes-le, Grows-children-le, append-nil, append_assoc,
  get_elem?-append, slice-append,
}

pub push-Grows : (node : Node) (b : Builder) → Grows b (push node b).0
unfolding push
push-Grows node b = record {
  more_nodes = node ∷ [];
  more_children = [];
  nodes_are = refl;
  children_are = sym (append-nil b.children);
}

pub stored-Grows : (b : Builder) (ids : List ℕ) → Grows b (stored (b, ids)).0
unfolding stored
stored-Grows b ids = record {
  more_nodes = [];
  more_children = ids;
  nodes_are = sym (append-nil b.nodes);
  children_are = refl;
}

-- The answer of `grouped`.
pub grouped-ok :
    (specs : TargetSpecs) (compiled : Result InvalidRule (Builder × List ℕ)) (r : Builder × Range)
    → grouped specs compiled ≡ ok r
    → (done : Builder × List ℕ) × (compiled ≡ ok done) × (stored done ≡ r) × (0 < count specs)
unfolding grouped
grouped-ok nil compiled r h = absurd (cc)
grouped-ok (cons spec specs) compiled r h =
    let (done, e, f) = ok-bind compiled (λ d. ok (stored d)) r h in
    (done, e, ground (arith, f), omega arith)

-- The answer of `split_node`.
pub split_node-ok :
    (strategy : SplitStrategy) (specs : TargetSpecs) (weights : List ℕ)
    (compiled : Result InvalidRule (Builder × List ℕ)) (r : Builder × ℕ)
    → split_node strategy specs weights compiled ≡ ok r
    → (schedule : List ℕ) × (done : Builder × List ℕ) × (split_schedule strategy
          (count specs)
          weights
        ≡ ok schedule)
      × (compiled ≡ ok done)
      × (push (Node.split strategy (stored done).1 schedule) (stored done).0 ≡ r)
      × (0 < count specs)
unfolding split_node
split_node-ok strategy nil weights compiled r h = absurd (cc)
split_node-ok strategy (cons spec specs) weights compiled r h =
    let (schedule, e, f) = ok-bind (split_schedule strategy (suc (count specs)) weights) _ r h in
    let (x, g, k) = ok-bind (grouped (cons spec specs) compiled) _ r f in
    let (done, u, v, w) = grouped-ok (cons spec specs) compiled x g in
    (
      schedule,
      done,
      e,
      u,
      subst (λ (z : Builder × Range). push (Node.split strategy z.1 schedule) z.0 ≡ r) (sym v)
          (ok-cancel refl k),
      w,
    )

-- The arm of `all`.
pub all-ok :
    (specs : TargetSpecs) (b : Builder) (r : Builder × ℕ)
    → target (all specs) b ≡ ok r
    → (done : Builder × List ℕ) × (targets specs b ≡ ok done)
      × (push (Node.all (stored done).1) (stored done).0 ≡ r)
unfolding target
all-ok specs b r h =
    let (x, e, f) = ok-bind (grouped specs (targets specs b)) _ r h in
    let (done, u, v, w) = grouped-ok specs (targets specs b) x e in
    (
      done,
      u,
      subst (λ (z : Builder × Range). push (Node.all z.1) z.0 ≡ r) (sym v) (ok-cancel refl f),
    )

pub cons-ok :
    (spec : TargetSpec) (specs : TargetSpecs) (b : Builder) (r : Builder × List ℕ)
    → targets (cons spec specs) b ≡ ok r
    → (one : Builder × ℕ) × (rest : Builder × List ℕ) × (target spec b ≡ ok one)
      × (targets specs one.0 ≡ ok rest)
      × ((rest.0, one.1 ∷ rest.1) ≡ r)
unfolding target
cons-ok spec specs b r h =
    let (one, e, f) = ok-bind (target spec b) _ r h in
    let (rest, g, k) = ok-bind (targets specs one.0) _ r f in (one, rest, e, g, ok-cancel refl k)

pub consumer-ok :
    (id : ℕ) (b : Builder) (r : Builder × ℕ)
    → target (consumer id) b ≡ ok r
    → push (Node.consumer id) b ≡ r
unfolding target
consumer-ok id b r h = ok-cancel refl h

pub nil-ok : (b : Builder) (r : Builder × List ℕ) → targets nil b ≡ ok r → (b, []) ≡ r
unfolding target
nil-ok b r h = ok-cancel refl h

pub split-ok :
    (strategy : SplitStrategy) (specs : TargetSpecs) (weights : List ℕ) (b : Builder)
    (r : Builder × ℕ)
    → target (split strategy specs weights) b ≡ ok r
    → (schedule : List ℕ) × (done : Builder × List ℕ) × (split_schedule strategy
          (count specs)
          weights
        ≡ ok schedule)
      × (targets specs b ≡ ok done)
      × (push (Node.split strategy (stored done).1 schedule) (stored done).0 ≡ r)
      × (0 < count specs)
unfolding target
split-ok strategy specs weights b r h = split_node-ok strategy specs weights (targets specs b) r h

-- A node pushed behind the children stored.
pub closed-Grows :
    (node : Node) (b : Builder) (done : Builder × List ℕ) (r : Builder × ℕ)
    → Grows b done.0
    → push node (stored done).0 ≡ r
    → Grows b r.0
closed-Grows node b done r g e =
    subst (λ (z : Builder × ℕ). Grows b z.0) e
      (Grows-trans g (Grows-trans (stored-Grows done.0 done.1) (push-Grows node (stored done).0)))

mutual
  pub target-Grows :
      (spec : TargetSpec) (b : Builder) (r : Builder × ℕ) → target spec b ≡ ok r → Grows b r.0
  target-Grows (consumer id) b r h =
      subst (λ (z : Builder × ℕ). Grows b z.0) (consumer-ok id b r h)
        (push-Grows (Node.consumer id) b)
  target-Grows (all specs) b r h =
      let (done, e, f) = all-ok specs b r h in
      closed-Grows (Node.all (stored done).1) b done r (targets-Grows specs b done e) f
  target-Grows (split strategy specs weights) b r h =
      let (schedule, done, s, e, f, w) = split-ok strategy specs weights b r h in
      closed-Grows (Node.split strategy (stored done).1 schedule) b done r
        (targets-Grows specs b done e) f

  pub targets-Grows :
      (specs : TargetSpecs) (b : Builder) (r : Builder × List ℕ)
      → targets specs b ≡ ok r
      → Grows b r.0
  targets-Grows nil b r h =
      subst (λ (z : Builder × List ℕ). Grows b z.0) (nil-ok b r h) (Grows-refl b)
  targets-Grows (cons spec specs) b r h =
      let (one, rest, e, f, g) = cons-ok spec specs b r h in
      subst (λ (z : Builder × List ℕ). Grows b z.0) g
        (Grows-trans (target-Grows spec b one e) (targets-Grows specs one.0 rest f))

-- An arena whose indices are `u32`s.
pub record Small (t : Builder) : Type 0 where
  pub few_nodes : length t.nodes ≤ u32_max
  pub few_children : length t.children ≤ u32_max

-- Where a pushed node stands in every later arena.
pub push-at :
    (node : Node) (b t : Builder)
    → Grows (push node b).0 t
    → Small t
    → ((push node b).1 ≡ length b.nodes)
      × (get_elem? t.nodes (length b.nodes) ≡ some node)
      × (length b.nodes < length (push node b).0.nodes)
unfolding push
push-at node b t g s =
    let grown : length (b.nodes ++ node ∷ []) ≡ length b.nodes + 1 =
      length-append b.nodes (node ∷ []) in
    let le = Grows-nodes-le g in
    (
      ground (arith, grown, le, s.few_nodes),
      subst (λ l. get_elem? l (length b.nodes) ≡ some node)
          (sym (g.nodes_are ∙ append_assoc b.nodes (node ∷ []) g.more_nodes))
          (get_elem?-append b.nodes node g.more_nodes),
      omega (arith, grown),
    )

-- The children stored, in every later arena.
pub stored-slice :
    (done : Builder × List ℕ) (t : Builder)
    → Grows (stored done).0 t
    → Small t
    → slice (stored done).1 t.children ≡ done.1
unfolding stored
stored-slice done t g s =
    let le = Grows-children-le g in
    let start : index (length done.0.children) ≡ length done.0.children =
      omega (arith, le, s.few_children, length-append done.0.children done.1) in
    let end : index (length (done.0.children ++ done.1)) ≡ length (done.0.children ++ done.1) =
      omega (arith, le, s.few_children) in
    rw (start, end, g.children_are) (slice-append done.0.children done.1 g.more_children)
