-- ===== src/Rules/Targets.antt =====
-- `Builder::push`, `group` and `target` of crates/tgin-core/src/rules/compile.rs.
use tgin.Prelude.{
  ℕ, suc, ◌-◌, not, List, [], ◌∷◌, ◌++◌, length, is_empty, ◌==◌, if◌then◌else◌, Result, ok, err,
  ◌>>=◌,
}
use tgin.Rules.Spec.{
  TargetSpec, TargetSpecs, consumer, all, split, nil, cons, SplitStrategy, round_robin, hash_chat,
  weighted, InvalidRule, empty_group, weight_count, unexpected_weights,
}
use tgin.Rules.Schedule.{index, smooth_wrr_schedule}
use tgin.Rules.Table.{Node, Range, Builder}

abbrev pub count : TargetSpecs → ℕ
count nil = 0
count (cons spec specs) = suc (count specs)

unfoldable pub push : Node → Builder → Builder × ℕ
push node b = (record b { nodes = b.nodes ++ node ∷ [] }, index (length (b.nodes ++ node ∷ []) - 1))

-- The end of `group`, with the children compiled.
unfoldable pub stored : Builder × List ℕ → Builder × Range
stored (b, ids) = (
  record b { children = b.children ++ ids },
  record { start = index (length b.children); end = index (length (b.children ++ ids)) },
)

-- `group`, given what its children compile to.
unfoldable pub grouped :
    TargetSpecs → Result InvalidRule (Builder × List ℕ) → Result InvalidRule (Builder × Range)
unfolding stored
grouped nil compiled = err empty_group
grouped (cons spec specs) compiled = do done ← compiled; ok (stored done)

unfoldable pub split_schedule : SplitStrategy → ℕ → List ℕ → Result InvalidRule (List ℕ)
split_schedule weighted children weights =
    if not (length weights == children)
    then err (weight_count (length weights) children)
    else smooth_wrr_schedule weights
split_schedule round_robin children weights =
    if not (is_empty weights) then err unexpected_weights else ok []
split_schedule hash_chat children weights =
    if not (is_empty weights) then err unexpected_weights else ok []

-- The arm of a split, given what its children compile to.
unfoldable pub split_node :
    SplitStrategy
    → TargetSpecs
    → List ℕ
    → Result InvalidRule (Builder × List ℕ)
    → Result InvalidRule (Builder × ℕ)
unfolding grouped split_schedule push
split_node strategy nil weights compiled = err empty_group
split_node strategy (cons spec specs) weights compiled = do
  schedule ← split_schedule strategy (suc (count specs)) weights
  (b, range) ← grouped (cons spec specs) compiled
  ok (push (Node.split strategy range schedule) b)

unfoldable mutual
  unfolding push grouped split_node

  pub target : TargetSpec → Builder → Result InvalidRule (Builder × ℕ)
  target (consumer id) b = ok (push (Node.consumer id) b)
  target (all children) b = do
    (c, range) ← grouped children (targets children b)
    ok (push (Node.all range) c)
  target (split strategy among weights) b = split_node strategy among weights (targets among b)

  -- The loop of `group`.
  pub targets : TargetSpecs → Builder → Result InvalidRule (Builder × List ℕ)
  targets nil b = ok (b, [])
  targets (cons spec specs) b = do
    (c, id) ← target spec b
    (d, ids) ← targets specs c
    ok (d, id ∷ ids)

unfoldable pub group : TargetSpecs → Builder → Result InvalidRule (Builder × Range)
unfolding grouped target
group specs b = grouped specs (targets specs b)
