-- ===== src/Rules/InOrder.antt =====
-- The compiled rules of a source against the written ones, in their order: `Builder::rule` and the
-- loop of `RouteTable::compile` in crates/tgin-core/src/rules/compile.rs.
use tgin.Prelude.{
  ℕ, suc, ◌≡◌, refl, sym, ap, subst, ◌∙◌, Bool, none, some, List, [], ◌∷◌, String, get_elem?, zero,
  some-cancel, ok, ok-bind, ok-cancel,
}
use tgin.Prelude.Eq.{string_eq, int_eq}
use tgin.Core.{SourceId, Facts}
use tgin.Rules.Spec.{RuleSpec}
use tgin.Rules.Table.{Matchers, Builder, CompiledRule, SourceRules, RouteTable}
use tgin.Rules.Compile.{text_field, callback_field, rule, source_rules, with_source}
use tgin.Rules.Rooted.{with_source-ok}
use tgin.Rules.Scratch.{rule_matches, IsFirst}
use tgin.Rules.Patterns.{Later, Later-refl, Later-trans, Serves, Serves-back}
use tgin.Rules.Written.{RegexSets, written_holds, FirstOf}
use tgin.Rules.Faithful.{rule-Written}

module _ (m : Matchers) where
  -- Compiled rules that match as the rules that they were compiled from.
  abbrev pub AllSame :
      (CompiledRule m → Bool) → (RuleSpec → Bool) → List (CompiledRule m) → List RuleSpec → Type 0
  AllSame p q [] [] = Unit
  AllSame p q [] (spec ∷ specs) = ⊥
  AllSame p q (c ∷ cs) [] = ⊥
  AllSame p q (c ∷ cs) (spec ∷ specs) = (p c ≡ q spec) × AllSame p q cs specs

  pub AllSame-get_elem? :
      (p : CompiledRule m → Bool) (q : RuleSpec → Bool) (cs : List (CompiledRule m))
      (specs : List RuleSpec) (i : ℕ) (spec : RuleSpec)
      → AllSame p q cs specs
      → get_elem? specs i ≡ some spec
      → (c : CompiledRule m) × (get_elem? cs i ≡ some c) × (p c ≡ q spec)
  AllSame-get_elem? p q [] [] i spec s h = absurd (cc)
  AllSame-get_elem? p q [] (x ∷ specs) i spec s h = absurd s
  AllSame-get_elem? p q (c ∷ cs) [] i spec s h = absurd s
  AllSame-get_elem? p q (c ∷ cs) (x ∷ specs) zero spec s h =
      (c, refl, s.0 ∙ ap q (some-cancel refl h))
  AllSame-get_elem? p q (c ∷ cs) (x ∷ specs) (suc i) spec s h =
      AllSame-get_elem? p q cs specs i spec s.1 h

  pub FirstOf-none :
      (p : CompiledRule m → Bool) (q : RuleSpec → Bool) (cs : List (CompiledRule m))
      (specs : List RuleSpec)
      → AllSame p q cs specs
      → IsFirst m p cs none
      → FirstOf q specs none
  FirstOf-none p q cs specs s first i spec h =
      let (c, at, same) = AllSame-get_elem? p q cs specs i spec s h in sym same ∙ first i c at

  pub FirstOf-some :
      (p : CompiledRule m → Bool) (q : RuleSpec → Bool) (cs : List (CompiledRule m))
      (specs : List RuleSpec) (k : ℕ) (spec : RuleSpec)
      → AllSame p q cs specs
      → get_elem? specs k ≡ some spec
      → IsFirst m p cs (some k)
      → FirstOf q specs (some k)
  FirstOf-some p q cs specs k spec s at (c, here, holds, before) =
      let (d, also, same) = AllSame-get_elem? p q cs specs k spec s at in
      (
        spec,
        at,
        sym same ∙ ap p (some-cancel also here) ∙ holds,
        λ i other lt h.
            let (e, there, is) = AllSame-get_elem? p q cs specs i other s h in
            sym is ∙ before i e lt there,
      )

  module _ (finds : String → String → Bool) (laws : RegexSets m finds) where
    -- The compiled rules of a source match as the written ones.
    abbrev pub RulesWritten : Builder → Builder × List (CompiledRule m) → List RuleSpec → Type 0
    RulesWritten b (c, compiled) specs =
        Later b c
        × ((table : RouteTable m) (source : SourceRules m) (facts : Facts)
            → Serves m text_field c table.text_regex
            → Serves m callback_field c table.callback_regex
            → AllSame (rule_matches m table source facts)
                (λ spec. written_holds m finds source.username facts spec.predicates) compiled
                specs)

    pub source_rules-Written :
        (source : SourceId) (n : ℕ) (specs : List RuleSpec) (b : Builder)
        (r : Builder × List (CompiledRule m))
        → source_rules m source n specs b ≡ ok r
        → RulesWritten b r specs
    unfolding source_rules
    source_rules-Written source n [] b r h =
        subst (λ z. RulesWritten b z []) (ok-cancel refl h)
          (Later-refl b, λ table found facts s u. tt)
    source_rules-Written source n (spec ∷ specs) b r h =
        let (x, e, f) = ok-bind (with_source m source n (rule m spec b)) _ r h in
        let (y, g, k) = ok-bind (source_rules m source (suc n) specs x.0) _ r f in
        let (first_later, first) =
          rule-Written m finds laws spec b x (with_source-ok m source n (rule m spec b) x e) in
        let (rest_later, rest) = source_rules-Written source (suc n) specs x.0 y g in
        subst (λ z. RulesWritten b z (spec ∷ specs)) (ok-cancel refl k)
          (
            Later-trans first_later rest_later,
            λ table found facts s u. (
              first table found facts (Serves-back m text_field table.text_regex rest_later s)
                  (Serves-back m callback_field table.callback_regex rest_later u),
              rest table found facts s u,
            ),
          )
