-- ===== src/Rules/Rooted.antt =====
-- The rules that `Builder::rule` of crates/tgin-core/src/rules/compile.rs compiles, in the arena.
use tgin.Prelude.{
  ℕ, suc, ◌<◌, ◌≡◌, refl, sym, ap, subst, ◌∙◌, false, Option, none, some, List, [], ◌∷◌, ◌++◌,
  String, length, arith, Option-cases, inl, inr, Result, ok, err, ok-bind, ok-cancel,
}
use tgin.Core.{SourceId}
use tgin.Rules.Spec.{RuleSpec, TextMatch, TargetSpec, TargetSpecs, nil, cons, InvalidRule}
use tgin.Rules.Table.{Matchers, Builder, TextMatcher, CompiledRule}
use tgin.Rules.Schedule.{index}
use tgin.Rules.Targets.{target}
use tgin.Rules.Compile.{
  Field, text_field, callback_field, text_matcher, regex_matcher, first_invalid, build,
  optional_matcher, root, rule, command_automaton, with_source, source_rules, with_patterns,
  patterns_of,
}
use tgin.Rules.Shape.{Represents, Grows, Grows-refl, Grows-trans, Grows-nodes-le, append-nil}
use tgin.Rules.Compiled.{Small, target-Grows}
use tgin.Rules.Arena.{Placed, target-Placed}

-- The one target of a rule: several are an `all`.
abbrev pub root_target : TargetSpecs → TargetSpec
root_target nil = TargetSpec.all nil
root_target (cons single nil) = single
root_target (cons first (cons second more)) = TargetSpec.all (cons first (cons second more))

module _ (m : Matchers) where
  pub root-target :
      (specs : TargetSpecs) (b : Builder) (r : Builder × ℕ)
      → root m specs b ≡ ok r
      → target (root_target specs) b ≡ ok r
  unfolding root
  root-target nil b r h = absurd (cc)
  root-target (cons single nil) b r h = h
  root-target (cons first (cons second more)) b r h = h

  -- Matchers of texts leave the arena.
  SameArena : Builder → Builder → Type 0
  SameArena b c = (c.nodes ≡ b.nodes) × (c.children ≡ b.children)

  SameArena-Grows : {b c : Builder} → SameArena b c → Grows b c
  unfolding SameArena
  SameArena-Grows {b} {c} (n, k) = record {
    more_nodes = [];
    more_children = [];
    nodes_are = n ∙ sym (append-nil b.nodes);
    children_are = k ∙ sym (append-nil b.children);
  }

  SameArena-refl : (b : Builder) → SameArena b b
  unfolding SameArena
  SameArena-refl b = (refl, refl)

  with_patterns-SameArena :
      (field : Field) (patterns : List String) (b : Builder)
      → SameArena b (with_patterns field patterns b)
  unfolding SameArena
  with_patterns-SameArena text_field patterns b = (refl, refl)
  with_patterns-SameArena callback_field patterns b = (refl, refl)

  regex_matcher-SameArena :
      (list : List String) (field : Field) (b : Builder) (r : Builder × TextMatcher m)
      → regex_matcher m list field b ≡ ok r
      → SameArena b r.0
  unfolding regex_matcher
  regex_matcher-SameArena list field b r h = elim (Option-cases (first_invalid m list)) [
    | inr (pattern, bad) ↦ absurd (ground (arith, h, bad))
    | inl good ↦
        let patterns = patterns_of field b ++ list in
        let answer : regex_matcher m list field b
            ≡ ok (
              with_patterns field patterns b,
              TextMatcher.regex (record {
                start = index (length (patterns_of field b));
                end = index (length patterns);
              }),
            ) =
          rw (good, regex_matcher) refl in
        subst (λ (z : Builder × TextMatcher m). SameArena b z.0) (ok-cancel answer h)
          (with_patterns-SameArena field (patterns_of field b ++ list) b)
  ]

  text_matcher-SameArena :
      (match : TextMatch) (field : Field) (b : Builder) (r : Builder × TextMatcher m)
      → text_matcher m match field b ≡ ok r
      → SameArena b r.0
  unfolding text_matcher
  text_matcher-SameArena (TextMatch.prefix []) field b r h = absurd (cc)
  text_matcher-SameArena (TextMatch.prefix (x ∷ list)) field b r h =
      let (a, e, f) = ok-bind (build m (x ∷ list) false) _ r h in
      subst (λ (z : Builder × TextMatcher m). SameArena b z.0) (ok-cancel refl f) (SameArena-refl b)
  text_matcher-SameArena (TextMatch.equals []) field b r h = absurd (cc)
  text_matcher-SameArena (TextMatch.equals (x ∷ list)) field b r h =
      subst (λ (z : Builder × TextMatcher m). SameArena b z.0) (ok-cancel refl h) (SameArena-refl b)
  text_matcher-SameArena (TextMatch.regex []) field b r h = absurd (cc)
  text_matcher-SameArena (TextMatch.regex (x ∷ list)) field b r h =
      regex_matcher-SameArena (x ∷ list) field b r h

  optional_matcher-SameArena :
      (match : Option TextMatch) (field : Field) (b : Builder)
      (r : Builder × Option (TextMatcher m))
      → optional_matcher m match field b ≡ ok r
      → SameArena b r.0
  unfolding optional_matcher
  optional_matcher-SameArena none field b r h =
      subst (λ (z : Builder × Option (TextMatcher m)). SameArena b z.0) (ok-cancel refl h)
        (SameArena-refl b)
  optional_matcher-SameArena (some match) field b r h =
      let (x, e, f) = ok-bind (text_matcher m match field b) _ r h in
      subst (λ (z : Builder × Option (TextMatcher m)). SameArena b z.0) (ok-cancel refl f)
        (text_matcher-SameArena match field b x e)

  -- What a rule compiles to.
  rule-Placed :
      (spec : RuleSpec) (b : Builder) (r : Builder × CompiledRule m)
      → rule m spec b ≡ ok r
      → Grows b r.0 × Placed (r.0, r.1.root) (root_target spec.targets)
  unfolding rule
  rule-Placed spec b r h =
      let p = spec.predicates in
      let (commands, e0, h0) = ok-bind (command_automaton m p.commands) _ r h in
      let (x, e1, h1) = ok-bind (optional_matcher m p.text text_field b) _ r h0 in
      let (y, e2, h2) = ok-bind (optional_matcher m p.callback_data callback_field x.0) _ r h1 in
      let (z, e3, h3) = ok-bind (root m spec.targets y.0) _ r h2 in
      let t = root-target spec.targets y.0 z e3 in
      let grows =
        Grows-trans (SameArena-Grows (optional_matcher-SameArena p.text text_field b x e1)) (
          Grows-trans
            (SameArena-Grows (optional_matcher-SameArena p.callback_data callback_field x.0 y e2))
            (target-Grows (root_target spec.targets) y.0 z t)) in
      subst
        (λ (w : Builder × CompiledRule m).
          Grows b w.0 × Placed (w.0, w.1.root) (root_target spec.targets))
        (ok-cancel refl h3) (grows, target-Placed (root_target spec.targets) y.0 z t)

  pub with_source-ok :
      {A : Type 0} (source : SourceId) (n : ℕ) (x : Result InvalidRule A) (a : A)
      → with_source m source n x ≡ ok a
      → x ≡ ok a
  with_source-ok source n (ok z) a h = ap ok (ok-cancel refl h)
  with_source-ok source n (err e) a h = absurd (cc)

  -- The compiled rules of a source, against its rules.
  pub data RulesOf (t : Builder) : List (CompiledRule m) → List RuleSpec → Type 0 where
    no_rules : RulesOf t [] []
    one_more :
        {c : CompiledRule m} {cs : List (CompiledRule m)} {spec : RuleSpec} {specs : List RuleSpec}
        → Represents t.nodes t.children c.root (root_target spec.targets)
        → c.root < length t.nodes
        → RulesOf t cs specs
        → RulesOf t (c ∷ cs) (spec ∷ specs)

  pub source_rules-RulesOf :
      (source : SourceId) (n : ℕ) (specs : List RuleSpec) (b : Builder)
      (r : Builder × List (CompiledRule m))
      → source_rules m source n specs b ≡ ok r
      → Grows b r.0 × ((t : Builder) → Grows r.0 t → Small t → RulesOf t r.1 specs)
  unfolding source_rules
  source_rules-RulesOf source n [] b r h =
      subst
        (λ (z : Builder × List (CompiledRule m)).
          Grows b z.0 × ((t : Builder) → Grows z.0 t → Small t → RulesOf t z.1 []))
        (ok-cancel refl h) (Grows-refl b, λ t g s. no_rules)
  source_rules-RulesOf source n (spec ∷ specs) b r h =
      let (x, e, f) = ok-bind (with_source m source n (rule m spec b)) _ r h in
      let (y, g, k) = ok-bind (source_rules m source (suc n) specs x.0) _ r f in
      let (first_grows, placed) =
        rule-Placed spec b x (with_source-ok source n (rule m spec b) x e) in
      let (rest_grows, others) = source_rules-RulesOf source (suc n) specs x.0 y g in
      subst
        (λ (z : Builder × List (CompiledRule m)).
          Grows b z.0 × ((t : Builder) → Grows z.0 t → Small t → RulesOf t z.1 (spec ∷ specs)))
        (ok-cancel refl k)
        (
          Grows-trans first_grows rest_grows,
          λ t grows s.
              let at_first = Grows-trans rest_grows grows in
              let (here, lt) = placed t at_first s in
              one_more here (omega (arith, lt, Grows-nodes-le at_first)) (others t grows s),
        )
