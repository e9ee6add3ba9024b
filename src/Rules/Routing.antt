-- ===== src/Rules/Routing.antt =====
-- Compiling rules and routing by them (crates/tgin-core/src/rules), end to end.
use tgin.Prelude.{
  ℕ, Bool, zero, suc, ◌<◌, ◌≡◌, refl, sym, subst, Option, none, some, List, [], String, length,
  get_elem?, Option-cases, some-cancel, inl, inr, ok,
}
use tgin.Core.{SourceId, Facts, ordering_key}
use tgin.Rules.Spec.{RuleSpec}
use tgin.Rules.Table.{Matchers, Builder, CompiledRule, SourceRules, RouteTable}
use tgin.Rules.Compile.{source_at, compile}
use tgin.Rules.Route.{MatchScratch, Routed, route, walked}
use tgin.Rules.Shape.{Represents}
use tgin.Rules.Compiled.{Small}
use tgin.Rules.Rooted.{root_target, RulesOf, no_rules, one_more}
use tgin.Rules.Delivery.{Delivers, add_new, walk-Delivered}
use tgin.Rules.Scratch.{IsFirst, Suits, rule_matches, prepared-IsFirst}
use tgin.Rules.Written.{RegexSets, IsNameOf, written_holds, FirstOf}
use tgin.Rules.InOrder.{FirstOf-none, FirstOf-some}
use tgin.Rules.Sources.{Listed}
use tgin.Rules.Origins.{arena_of, From, compile-From, compile-unlisted}

module _ (m : Matchers) where
  RulesOf-get_elem? :
      {t : Builder} (cs : List (CompiledRule m)) (specs : List RuleSpec) (k : ℕ)
      (c : CompiledRule m)
      → RulesOf m t cs specs
      → get_elem? cs k ≡ some c
      → (spec : RuleSpec) × (get_elem? specs k ≡ some spec)
        × Represents t.nodes t.children c.root (root_target spec.targets)
        × (c.root < length t.nodes)
  RulesOf-get_elem? _ _ k c no_rules h = absurd (cc)
  RulesOf-get_elem? {t} _ _ zero d (one_more {c} {cs} {spec} {specs} r lt more) h =
      subst
        (λ (z : CompiledRule m).
          (s : RuleSpec) × (some spec ≡ some s)
          × Represents t.nodes t.children z.root (root_target s.targets)
          × (z.root < length t.nodes))
        (some-cancel refl h) (spec, refl, r, lt)
  RulesOf-get_elem? _ _ (suc k) d (one_more {c} {cs} {spec} {specs} r lt more) h =
      RulesOf-get_elem? cs specs k d more h

  module _ (finds : String → String → Bool) where
    -- Whether the predicates of a rule hold, as they are written.
    abbrev pub holds_of : Option String → Facts → RuleSpec → Bool
    holds_of username facts spec = written_holds m finds username facts spec.predicates

    -- What `route` may answer, given the rules and the usernames that were written.
    pub data Answered (rules : List (SourceId × List RuleSpec))
        (usernames : List (SourceId × Option String)) (source : SourceId) (facts : Facts)
        : Option ℕ → List ℕ → Type 0 where
      no_source :
          ((specs : List RuleSpec) → ¬ (Listed m source specs rules))
          → Answered rules usernames source facts none []
      no_match :
          (specs : List RuleSpec) (username : Option String)
          → Listed m source specs rules
          → IsNameOf source usernames username
          → FirstOf (holds_of username facts) specs none
          → Answered rules usernames source facts none []
      delivered :
          (specs : List RuleSpec) (username : Option String) {spec : RuleSpec} {k : ℕ}
          (ids : List ℕ)
          → Listed m source specs rules
          → IsNameOf source usernames username
          → FirstOf (holds_of username facts) specs (some k)
          → get_elem? specs k ≡ some spec
          → Delivers (root_target spec.targets) ids
          → Answered rules usernames source facts (some k) (add_new ids [])

  module _ (finds : String → String → Bool) (laws : RegexSets m finds) where
    walked-Answered :
        (rules : List (SourceId × List RuleSpec)) (usernames : List (SourceId × Option String))
        (table : RouteTable m) (source : SourceId) (facts : Facts) (cursors : ℕ → ℕ)
        (found : SourceRules m) (match : Option ℕ × MatchScratch)
        → From m finds laws table source found rules usernames
        → IsFirst m (rule_matches m table found facts) found.rules match.0
        → (r : Routed m) × (walked m table found facts cursors match ≡ some r)
          × Answered finds rules usernames source facts r.matched r.out
    unfolding walked
    walked-Answered rules usernames table source facts cursors found (none, scratch)
          (specs, listed, compiled, named, same) first =
        (
          record { matched = none; out = []; cursors = cursors; scratch = scratch },
          refl,
          no_match specs found.username listed named (
              FirstOf-none m (rule_matches m table found facts)
                (holds_of finds found.username facts) found.rules specs (same facts) first),
        )
    walked-Answered rules usernames table source facts cursors found (some k, scratch)
          (specs, listed, compiled, named, same) first =
        let (c, here, holds, before) = first in
        let (spec, spec_at, represents, lt) =
          RulesOf-get_elem? found.rules specs k c compiled here in
        let d =
          walk-Delivered table.nodes table.children (root_target spec.targets) c.root represents
            (length table.nodes) (ordering_key facts) (record { cursors = cursors; out = [] }) lt in
        let r : Routed m = record {
          matched = some k;
          out = d.final.out;
          cursors = d.final.cursors;
          scratch = scratch;
        } in
        let written =
          FirstOf-some m (rule_matches m table found facts) (holds_of finds found.username facts)
            found.rules specs k spec (same facts) spec_at first in
        (
          r,
          rw (here, d.ends, walked) refl,
          subst (λ out. Answered finds rules usernames source facts (some k) out) (sym d.out_is)
              (delivered specs found.username d.ids listed named written spec_at d.delivers),
        )

    -- When rules compile to a table with at most 2^32 - 1 nodes and children, when a set of
    -- regexes answers for each of its patterns, by position, as finds says of that pattern
    -- alone, and has at most 2^32 - 1 of them, and when the scratch has room for the regexes of
    -- the table if it was prepared for it, route returns: the walk ends on fuel of as many steps
    -- as there are nodes. For a source that is not listed, or none of whose rules holds as it is
    -- written, it matches nothing and delivers nothing. Else it matches the first of the rules
    -- that are listed for the source whose predicates hold as they are written, and delivers,
    -- each consumer once and in order, one choice of what the targets that were written for that
    -- rule may deliver: every child of an all, one child of a split. The predicates hold when
    -- the update type, the chat, the user and the chat type are each among those written, if any
    -- are; when the automaton of the written commands, without their slash, finds the whole name
    -- of a command that names no bot or the username listed first for the source; and when the
    -- text and the callback data, where a match is written for them, are equal to one of the
    -- texts, or begin with what the automaton of the prefixes finds, or one of the regexes finds
    -- them.
    pub compile-Answered :
        (token : ℕ) (rules : List (SourceId × List RuleSpec))
        (usernames : List (SourceId × Option String)) (table : RouteTable m) (source : SourceId)
        (facts : Facts) (cursors : ℕ → ℕ) (scratch : MatchScratch)
        → compile m token rules usernames ≡ ok table
        → Small (arena_of m table)
        → Suits m table scratch
        → (r : Routed m) × (route m table source facts cursors scratch ≡ some r)
          × Answered finds rules usernames source facts r.matched r.out
    unfolding route
    compile-Answered token rules usernames table source facts cursors scratch h small suits =
        elim (Option-cases (source_at m source table.sources)) [
          | inl nowhere ↦ (
            record { matched = none; out = []; cursors = cursors; scratch = scratch },
            rw (nowhere, route) refl,
            no_source (compile-unlisted m token rules usernames table h small source nowhere),
          )
          | inr (found, at) ↦
              rw (at, route)
                (walked-Answered rules usernames table source facts cursors found _
                  (compile-From m finds laws token rules usernames table h small source found at)
                  (prepared-IsFirst m table found facts scratch suits))
        ]
