-- ===== src/Rules/Walk.antt =====
-- `RouteTable::walk` of crates/tgin-core/src/rules/eval.rs. An atomic cursor is kept by its node's
-- index, in `cursors`.
use tgin.Prelude.{
  ℕ, zero, suc, ◌/◌, ◌%◌, Option, none, some, List, [], ◌∷◌, ◌++◌, length, is_empty, get_elem?,
  ◌==◌, if◌then◌else◌,
}
use tgin.Prelude.Eq.{nat_eq, member}
use tgin.Prelude.Words.{wrapping_add}
use tgin.Core.{ConsumerId}
use tgin.Rules.Spec.{SplitStrategy, hash_chat, weighted}
use tgin.Rules.Table.{Node, slice}

-- The cursors and the consumers found so far.
pub record Walk : Type 0 where
  pub cursors : ℕ → ℕ
  pub out : List ConsumerId

-- A run of the walk on a child, which may be out of fuel.
abbrev pub bind {ℓ κ} : {A : Type ℓ} {B : Type κ} → Option A → (A → Option B) → Option B
bind none f = none
bind (some a) f = f a

unfoldable pub each : (ℕ → Walk → Option Walk) → List ℕ → Walk → Option Walk
each visit [] s = some s
each visit (child ∷ children) s = bind (visit child s) (each visit children)

unfoldable pub push_new : ConsumerId → Walk → Walk
push_new id s = if member id s.out then s else record s { out = s.out ++ id ∷ [] }

-- `cursor.fetch_add(1)`: the walk after it; it returns `s.cursors node`.
abbrev pub advance : ℕ → Walk → Walk
advance node s = record s {
  cursors = λ j. if j == node then wrapping_add (s.cursors node) 1 else s.cursors j;
}

-- The position picked, the key for the child, and the walk after the pick. `len` is positive.
pub record Pick : Type 0 where
  pub position : ℕ
  pub child_key : Option ℕ
  pub after : Walk

abbrev pub or_zero : Option ℕ → ℕ
or_zero none = 0
or_zero (some n) = n

abbrev round_robin_pick : ℕ → ℕ → Option ℕ → Walk → Pick
round_robin_pick node len key s = record {
  position = s.cursors node % len;
  child_key = key;
  after = advance node s;
}

unfoldable pub pick : ℕ → SplitStrategy → ℕ → List ℕ → Option ℕ → Walk → Pick
pick node hash_chat len schedule (some key) s = record {
  position = key % len;
  child_key = some (key / len);
  after = s;
}
pick node weighted len schedule key s =
    if is_empty schedule then round_robin_pick node len key s else record {
      position = or_zero (get_elem? schedule (s.cursors node % length schedule));
      child_key = key;
      after = advance node s;
    }
pick node _ len schedule key s = round_robin_pick node len key s

-- A pick out of range delivers nothing.
abbrev pub visit_at : (ℕ → Option ℕ → Walk → Option Walk) → List ℕ → Pick → Option Walk
visit_at visit children p = elim (get_elem? children p.position) [
  | none ↦ some p.after
  | some child ↦ visit child p.child_key p.after
]

-- The arms of `walk`, given how children are walked.
unfoldable pub walk_node :
    (ℕ → Option ℕ → Walk → Option Walk) → List ℕ → ℕ → Node → Option ℕ → Walk → Option Walk
unfolding each push_new slice pick
walk_node visit children i (Node.consumer id) key s = some (push_new id s)
walk_node visit children i (Node.all range) key s =
    each (λ child. visit child key) (slice range children) s
walk_node visit children i (Node.split strategy range schedule) key s =
    let ids = slice range children in
    if is_empty ids
    then some s
    else visit_at visit ids (pick i strategy (length ids) schedule key s)

-- On fuel; `none` when the fuel runs out. A node that is not there delivers nothing.
unfoldable pub walk : List Node → List ℕ → ℕ → ℕ → Option ℕ → Walk → Option Walk
unfolding walk_node
walk nodes children zero i key s = none
walk nodes children (suc fuel) i key s = elim (get_elem? nodes i) [
  | none ↦ some s
  | some node ↦ walk_node (walk nodes children fuel) children i node key s
]
