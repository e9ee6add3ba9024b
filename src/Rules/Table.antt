-- ===== src/Rules/Table.antt =====
-- The compiled rules of crates/tgin-core/src/rules/compile.rs. The libraries that match text are the
-- parameter `Matchers`; a hash set is a list.
use tgin.Prelude.{
  ℕ, ◌-◌, Bool, Option, List, [], String, length, leb, ◌&&◌, take, drop, if◌then◌else◌,
}
use tgin.Prelude.Int.{ℤ}
use tgin.Core.{ConsumerId}
use tgin.Rules.Spec.{SplitStrategy}

-- What the code uses of aho-corasick and of regex-automata. `build_automaton patterns ignore_case`
-- is an anchored leftmost-longest automaton, `matched` the end of what it finds, in characters; `matches_at` says
-- whether the pattern with that id matches somewhere in the text.
pub record Matchers : Type 1 where
  pub Automaton : Type 0
  pub Regexes : Type 0
  pub build_automaton : List String → Bool → Option Automaton
  pub matched : Automaton → String → Option ℕ
  pub valid_regex : String → Bool
  pub build_regexes : List String → Option Regexes
  pub matches_at : Regexes → String → ℕ → Bool

-- `Range<u32>`
pub record Range : Type 0 where
  pub start : ℕ
  pub end : ℕ

-- The cursor of a `Split` node is kept by the node's index, beside the table.
pub data Node : Type 0 where
  consumer : ConsumerId → Node
  all : Range → Node
  split : SplitStrategy → Range → List ℕ → Node

module _ (m : Matchers) where
  pub data TextMatcher : Type 0 where
    prefix : m.Automaton → TextMatcher
    regex : Range → TextMatcher
    equals : List String → TextMatcher

  pub record CompiledRule : Type 0 where
    pub update_types : List String
    pub chat_ids : List ℤ
    pub chat_types : ℕ
    pub user_ids : List ℤ
    pub commands : Option m.Automaton
    pub text : Option TextMatcher
    pub callback_data : Option TextMatcher
    pub root : ℕ

  pub record SourceRules : Type 0 where
    pub rules : List CompiledRule
    pub username : Option String

  -- `token` stands for the pointer that tells tables apart.
  pub record RouteTable : Type 0 where
    pub sources : List (Option SourceRules)
    pub nodes : List Node
    pub children : List ℕ
    pub text_regex : Option m.Regexes
    pub callback_regex : Option m.Regexes
    pub token : ℕ

pub record Builder : Type 0 where
  pub nodes : List Node
  pub children : List ℕ
  pub text_patterns : List String
  pub callback_patterns : List String

-- `children.get(start..end).unwrap_or(&[])`
unfoldable pub slice : Range → List ℕ → List ℕ
slice range children =
    if leb range.start range.end && leb range.end (length children)
    then take (range.end - range.start) (drop range.start children)
    else []
