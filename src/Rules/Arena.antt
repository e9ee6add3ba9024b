-- ===== src/Rules/Arena.antt =====
-- The arena that `Builder::target` of crates/tgin-core/src/rules/compile.rs leaves.
use tgin.Prelude.{
  ℕ, ◌≤◌, ◌<◌, ◌≡◌, refl, sym, ap, subst, some, List, [], ◌∷◌, ◌==◌, ==_iff, length, get_elem?,
  arith, ok, ok-cancel, Bool-cases, inl, inr,
}
use tgin.Rules.Spec.{
  TargetSpec, TargetSpecs, consumer, all, split, nil, cons, SplitStrategy, round_robin, hash_chat,
  weighted,
}
use tgin.Rules.Schedule.{AllBelow, smooth_wrr_schedule, IsSchedule, smooth_wrr_schedule-IsSchedule}
use tgin.Rules.Table.{Node, Builder, slice}
use tgin.Rules.Targets.{count, target, targets, push, stored, split_schedule}
use tgin.Rules.Shape.{Represents, RepresentsAll, Grows, Grows-trans, Grows-nodes-le}
use tgin.Rules.Compiled.{
  Small, push-Grows, stored-Grows, all-ok, cons-ok, consumer-ok, nil-ok, split-ok, targets-Grows,
  push-at, stored-slice,
}

no_picks :
    (n : ℕ) (weights schedule : List ℕ)
    → split_schedule round_robin n weights ≡ ok schedule
    → AllBelow n schedule
unfolding split_schedule
no_picks n [] schedule h = subst (AllBelow n) (ok-cancel refl h) tt
no_picks n (w ∷ weights) schedule h = absurd (cc)

-- Every pick of a schedule that compiled is the position of a child.
split_schedule-AllBelow :
    (strategy : SplitStrategy) (n : ℕ) (weights schedule : List ℕ)
    → split_schedule strategy n weights ≡ ok schedule
    → AllBelow n schedule
unfolding split_schedule
split_schedule-AllBelow round_robin n weights schedule h = no_picks n weights schedule h
split_schedule-AllBelow hash_chat n weights schedule h = no_picks n weights schedule h
split_schedule-AllBelow weighted n weights schedule h = elim (Bool-cases (length weights == n)) [
  | inr differs ↦ absurd (ground (arith, h, differs))
  | inl same ↦
      let good : smooth_wrr_schedule weights ≡ ok schedule = ground (arith, h, same) in
      let (count_is, short, below) =
        subst (IsSchedule weights) good (smooth_wrr_schedule-IsSchedule weights) in
      subst (λ k. AllBelow k schedule) ((==_iff (length weights) n).0 same) below
]

-- What a target's node is in every later arena.
abbrev pub Placed : Builder × ℕ → TargetSpec → Type 0
Placed r spec =
    (t : Builder)
    → Grows r.0 t
    → Small t
    → Represents t.nodes t.children r.1 spec × (r.1 < length r.0.nodes)

-- A node behind its stored children, and the children from the arena at that point.
record Closed (node : Node) (done : Builder × List ℕ) (t : Builder) : Type 0 where
  at : get_elem? t.nodes (push node (stored done).0).1 ≡ some node
  index_is : (push node (stored done).0).1 ≡ length done.0.nodes
  index_lt : (push node (stored done).0).1 < length (push node (stored done).0).0.nodes
  children_are : slice (stored done).1 t.children ≡ done.1
  grows : Grows done.0 t

closed :
    (node : Node) (done : Builder × List ℕ) (t : Builder)
    → Grows (push node (stored done).0).0 t
    → Small t
    → Closed node done t
unfolding stored
closed node done t g s =
    let b = (stored done).0 in
    let (i, at, lt) = push-at node b t g s in
    let g' = Grows-trans (push-Grows node b) g in
    record {
      at = subst (λ k. get_elem? t.nodes k ≡ some node) (sym i) at;
      index_is = i;
      index_lt = omega (arith, i, lt);
      children_are = stored-slice done t g' s;
      grows = Grows-trans (stored-Grows done.0 done.1) g';
    }

mutual
  unfolding Represents

  pub target-Placed :
      (spec : TargetSpec) (b : Builder) (r : Builder × ℕ) → target spec b ≡ ok r → Placed r spec
  target-Placed (consumer id) b r h =
      subst (λ (z : Builder × ℕ). Placed z (consumer id)) (consumer-ok id b r h)
        (λ t g s.
          let (i, at, lt) = push-at (Node.consumer id) b t g s in
          (
            subst (λ k. get_elem? t.nodes k ≡ some (Node.consumer id)) (sym i) at,
            omega (arith, i, lt),
          ))
  target-Placed (all specs) b r h =
      let (done, e, f) = all-ok specs b r h in
      subst (λ (z : Builder × ℕ). Placed z (all specs)) f
        (λ t g s.
          let x = closed (Node.all (stored done).1) done t g s in
          (
            (
              (stored done).1,
              x.at,
              subst
                  (λ ids.
                    RepresentsAll t.nodes t.children
                      (push (Node.all (stored done).1) (stored done).0).1 ids specs)
                  (sym x.children_are)
                  (targets-Placed specs b done e _ (omega (arith, x.index_is)) t x.grows s),
            ),
            x.index_lt,
          ))
  target-Placed (split strategy specs weights) b r h =
      let (schedule, done, p, e, f, w) = split-ok strategy specs weights b r h in
      subst (λ (z : Builder × ℕ). Placed z (split strategy specs weights)) f
        (λ t g s.
          let node = Node.split strategy (stored done).1 schedule in
          let x = closed node done t g s in
          (
            (
              (stored done).1,
              schedule,
              x.at,
              subst
                  (λ ids. RepresentsAll t.nodes t.children (push node (stored done).0).1 ids specs)
                  (sym x.children_are)
                  (targets-Placed specs b done e _ (omega (arith, x.index_is)) t x.grows s),
              split_schedule-AllBelow strategy (count specs) weights schedule p,
              w,
            ),
            x.index_lt,
          ))

  targets-Placed :
      (specs : TargetSpecs) (b : Builder) (r : Builder × List ℕ)
      → targets specs b ≡ ok r
      → (i : ℕ) → length r.0.nodes ≤ i
      → (t : Builder) → Grows r.0 t
      → Small t
      → RepresentsAll t.nodes t.children i r.1 specs
  targets-Placed nil b r h i le t g s = ap (λ (z : Builder × List ℕ). z.1) (sym (nil-ok b r h))
  targets-Placed (cons spec specs) b r h i le t g s =
      let (one, rest, e, f, k) = cons-ok spec specs b r h in
      let same : r.0 ≡ rest.0 = ap (λ (z : Builder × List ℕ). z.0) (sym k) in
      let rest_grows : Grows rest.0 t = subst (λ z. Grows z t) same g in
      let rest_le : length rest.0.nodes ≤ i = subst (λ (z : Builder). length z.nodes ≤ i) same le in
      let (here, lt) =
        target-Placed spec b one e t (Grows-trans (targets-Grows specs one.0 rest f) rest_grows)
          s in
      subst (λ (z : Builder × List ℕ). RepresentsAll t.nodes t.children i z.1 (cons spec specs)) k
        (
          omega (arith, lt, rest_le, Grows-nodes-le (targets-Grows specs one.0 rest f)),
          here,
          targets-Placed specs one.0 rest f i rest_le t rest_grows s,
        )
