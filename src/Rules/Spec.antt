-- ===== src/Rules/Spec.antt =====
-- Plain rules (crates/tgin-core/src/rules/spec.rs) and why they may not compile (rules/mod.rs). The
-- errors of the matching libraries are left out of `invalid_regex`, `automaton` and `regex_set`.
use tgin.Prelude.{ℕ, Option, List, String}
use tgin.Prelude.Int.{ℤ}
use tgin.Core.{ChatType, ConsumerId, SourceId}

pub data TextMatch : Type 0 where
  prefix : List String → TextMatch
  regex : List String → TextMatch
  equals : List String → TextMatch

pub record Predicates : Type 0 where
  pub update_types : List String
  pub chat_ids : List ℤ
  pub chat_types : List ChatType
  pub user_ids : List ℤ
  pub commands : List String
  pub text : Option TextMatch
  pub callback_data : Option TextMatch

pub data SplitStrategy : Type 0 where
  round_robin hash_chat weighted : SplitStrategy

mutual
  pub data TargetSpec : Type 0 where
    consumer : ConsumerId → TargetSpec
    all : TargetSpecs → TargetSpec
    split : SplitStrategy → TargetSpecs → List ℕ → TargetSpec

  -- `Vec<TargetSpec>`
  pub data TargetSpecs : Type 0 where
    nil : TargetSpecs
    cons : TargetSpec → TargetSpecs → TargetSpecs

pub record RuleSpec : Type 0 where
  pub predicates : Predicates
  pub targets : TargetSpecs

pub data InvalidRule : Type 0 where
  no_targets empty_group empty_text_match automaton unexpected_weights zero_total_weight :
      InvalidRule
  invalid_command : String → InvalidRule
  invalid_regex : String → InvalidRule
  weight_count : ℕ → ℕ → InvalidRule
  weight_period_too_large : ℕ → InvalidRule

pub data RuleError : Type 0 where
  duplicate_source : SourceId → RuleError
  invalid : SourceId → ℕ → InvalidRule → RuleError
  regex_set : RuleError
