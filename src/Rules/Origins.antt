-- ===== src/Rules/Origins.antt =====
-- Where the rules of a source in a table of crates/tgin-core/src/rules/compile.rs come from.
use tgin.Prelude.{
  ℕ, ◌≡◌, refl, sym, ap, subst, ◌∙◌, Bool, ◌++◌, Option, none, some, List, [], ◌∷◌, String, ◌==◌,
  ==_iff, arith, some-cancel, Bool-cases, inl, inr, ◌⊎◌, Result, ok, ok-bind, ok-cancel, ◌>>=◌,
}
use tgin.Core.{SourceId, Facts}
use tgin.Rules.Spec.{RuleSpec, RuleError}
use tgin.Rules.Table.{Matchers, Builder, SourceRules, RouteTable}
use tgin.Rules.Compile.{
  Sources, set_source, source_at, username_of, compile_each, combined, compile, empty_builder,
  text_field, callback_field,
}
use tgin.Rules.Shape.{Grows, Grows-refl, Grows-trans, append-nil}
use tgin.Rules.Compiled.{Small}
use tgin.Rules.Rooted.{RulesOf, source_rules-RulesOf}
use tgin.Rules.Scratch.{rule_matches}
use tgin.Rules.Written.{RegexSets, IsNameOf, written_holds}
use tgin.Rules.Patterns.{Later, Later-refl, Later-trans, Serves, Serves-back}
use tgin.Rules.InOrder.{AllSame, source_rules-Written}
use tgin.Rules.Sources.{
  Listed, get-set_source, compile_each-step, compile_each-Listed, username_of-IsNameOf,
}

module _ (m : Matchers) where
  abbrev pub arena_of : RouteTable m → Builder
  arena_of table = record {
    nodes = table.nodes;
    children = table.children;
    text_patterns = [];
    callback_patterns = [];
  }

  -- What the builder has is in the table: its nodes, its children and its patterns.
  pub record Final (b : Builder) (table : RouteTable m) : Type 0 where
    pub grows : Grows b (arena_of table)
    pub small : Small (arena_of table)
    pub text_serves : Serves m text_field b table.text_regex
    pub callback_serves : Serves m callback_field b table.callback_regex

  Final-back :
      {b c : Builder} (table : RouteTable m) → Grows b c → Later b c → Final c table → Final b table
  Final-back table g l f = record {
    grows = Grows-trans g f.grows;
    small = f.small;
    text_serves = Serves-back m text_field table.text_regex l f.text_serves;
    callback_serves = Serves-back m callback_field table.callback_regex l f.callback_serves;
  }

  combined-ok :
      (patterns : List String) {B : Type 0} (k : Option m.Regexes → Result RuleError B) (b : B)
      → (combined m patterns >>= k) ≡ ok b
      → (found : Option m.Regexes) × (combined m (patterns ++ []) ≡ ok found) × (k found ≡ ok b)
  combined-ok patterns k b h =
      let (found, e, f) = ok-bind (combined m patterns) k b h in
      (found, ap (combined m) (append-nil patterns) ∙ e, f)

  -- A table is what the loop over the sources builds.
  pub compile-Final :
      (token : ℕ) (rules : List (SourceId × List RuleSpec))
      (usernames : List (SourceId × Option String)) (table : RouteTable m)
      → compile m token rules usernames ≡ ok table
      → Small (arena_of table)
      → (x : Builder × Sources m) × (compile_each m rules usernames (empty_builder m) [] ≡ ok x)
        × (x.1 ≡ table.sources)
        × Final x.0 table
  unfolding compile
  compile-Final token rules usernames table h small =
      let (x, e, f) = ok-bind (compile_each m rules usernames (empty_builder m) []) _ table h in
      let (text, text_is, g) = combined-ok x.0.text_patterns _ table f in
      let (callback, callback_is, k) = combined-ok x.0.callback_patterns _ table g in
      let (same, final) =
        subst (λ (z : RouteTable m). Small (arena_of z) → (x.1 ≡ z.sources) × Final x.0 z)
          (ok-cancel refl k)
          (λ few. (
            refl,
            record {
              grows = record {
                more_nodes = [];
                more_children = [];
                nodes_are = sym (append-nil x.0.nodes);
                children_are = sym (append-nil x.0.children);
              };
              small = few;
              text_serves = ([], text_is);
              callback_serves = ([], callback_is);
            },
          ))
          small in
      (x, e, same, final)

  module _ (finds : String → String → Bool) (laws : RegexSets m finds) where
    -- Where the rules of a source came from: they have the targets that are written, match as is
    -- written, and know the username of the source.
    abbrev pub From :
        RouteTable m
        → SourceId
        → SourceRules m
        → List (SourceId × List RuleSpec)
        → List (SourceId × Option String)
        → Type 0
    From table source found rules usernames =
        (specs : List RuleSpec) × Listed m source specs rules
        × RulesOf m (arena_of table) found.rules specs
        × IsNameOf source usernames found.username
        × ((facts : Facts)
            → AllSame m (rule_matches m table found facts)
                (λ spec. written_holds m finds found.username facts spec.predicates) found.rules
                specs)

    abbrev EachFrom :
        List (SourceId × List RuleSpec)
        → List (SourceId × Option String)
        → Builder
        → Sources m
        → Builder × Sources m
        → Type 0
    EachFrom rules usernames b sources (c, after) =
        Grows b c
        × Later b c
        × ((table : RouteTable m)
            → Final c table
            → (source : SourceId) (found : SourceRules m) → source_at m source after ≡ some found
            → (source_at m source sources ≡ some found) ⊎ From table source found rules usernames)

    compile_each-From :
        (rules : List (SourceId × List RuleSpec)) (usernames : List (SourceId × Option String))
        (b : Builder) (sources : Sources m) (r : Builder × Sources m)
        → compile_each m rules usernames b sources ≡ ok r
        → EachFrom rules usernames b sources r
    unfolding compile_each
    compile_each-From [] usernames b sources r h =
        subst (EachFrom [] usernames b sources) (ok-cancel refl h)
          (Grows-refl b, Later-refl b, λ table f source found e. inl e)
    compile_each-From ((id, specs) ∷ rules) usernames b sources r h =
        let (x, e, f) = compile_each-step m id specs rules usernames b sources r h in
        let added : SourceRules m = record { rules = x.1; username = username_of m id usernames } in
        let (first_grows, here) = source_rules-RulesOf m id 0 specs b x e in
        let (first_later, written) = source_rules-Written m finds laws id 0 specs b x e in
        let (rest_grows, rest_later, others) =
          compile_each-From rules usernames x.0 (set_source m id added sources) r f in
        (
          Grows-trans first_grows rest_grows,
          Later-trans first_later rest_later,
          λ table final source found at. elim (others table final source found at) [
            | inr (list, listed, compiled, named, written) ↦
                inr (list, inr listed, compiled, named, written)
            | inl before ↦
                let read = sym (get-set_source m source id added sources) ∙ before in
                elim (Bool-cases (source == id)) [
                  | inl same ↦
                      let e0 : some added ≡ some found = ground (arith, read, same) in
                      let first = Final-back table rest_grows rest_later final in
                      let id_is = sym ((==_iff source id).0 same) in
                      inr (
                        subst
                          (λ (z : SourceRules m).
                            From table source z ((id, specs) ∷ rules) usernames)
                          (some-cancel refl e0)
                          (
                            specs,
                            inl (id_is, refl),
                            here (arena_of table) first.grows first.small,
                            subst (λ i. IsNameOf source usernames (username_of m i usernames))
                                (sym id_is) (username_of-IsNameOf m source usernames),
                            λ facts.
                                written table added facts first.text_serves first.callback_serves,
                          ))
                  | inr other ↦ inl (ground (arith, read, other))
                ]
          ],
        )

    pub compile-From :
        (token : ℕ) (rules : List (SourceId × List RuleSpec))
        (usernames : List (SourceId × Option String)) (table : RouteTable m)
        → compile m token rules usernames ≡ ok table
        → Small (arena_of table)
        → (source : SourceId) (found : SourceRules m)
        → source_at m source table.sources ≡ some found
        → From table source found rules usernames
    compile-From token rules usernames table h small source found at =
        let (x, e, same, final) = compile-Final token rules usernames table h small in
        let (grows, later, each) = compile_each-From rules usernames (empty_builder m) [] x e in
        elim (each table final source found (ap (source_at m source) same ∙ at)) [
          | inl nowhere ↦ absurd (cc nowhere)
          | inr from ↦ from
        ]

  -- A source without rules in the table is not listed.
  pub compile-unlisted :
      (token : ℕ) (rules : List (SourceId × List RuleSpec))
      (usernames : List (SourceId × Option String)) (table : RouteTable m)
      → compile m token rules usernames ≡ ok table
      → Small (arena_of table)
      → (source : SourceId) → source_at m source table.sources ≡ none
      → (specs : List RuleSpec) → ¬ (Listed m source specs rules)
  compile-unlisted token rules usernames table h small source nowhere specs l =
      let (x, e, same, final) = compile-Final token rules usernames table h small in
      let kept = compile_each-Listed m rules usernames (empty_builder m) [] x source specs e l in
      let none_at = ap (source_at m source) same ∙ nowhere in absurd (ground (arith, kept, none_at))
