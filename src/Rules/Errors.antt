-- ===== src/Rules/Errors.antt =====
-- The errors of `RouteTable::compile` of crates/tgin-core/src/rules/compile.rs.
use tgin.Prelude.{
  ℕ, suc, ◌+◌, ◌≡◌, refl, sym, subst, ◌∙◌, true, Option, none, some, List, [], ◌∷◌, ◌++◌, String,
  get_elem?, is_some, ◌==◌, ==_iff, arith, Bool-cases, Option-cases, inl, inr, Result, ok, err,
  ◌>>=◌, err-bind, err-cancel,
}
use tgin.Core.{SourceId}
use tgin.Rules.Spec.{RuleSpec, InvalidRule, RuleError, duplicate_source, invalid, regex_set}
use tgin.Rules.Table.{Matchers, Builder, CompiledRule, SourceRules}
use tgin.Rules.Compile.{
  rule, with_source, source_rules, Sources, set_source, source_at, username_of, compile_each,
  combined, compile, empty_builder,
}
use tgin.Rules.Shape.{append_assoc}
use tgin.Rules.Sources.{Listed, get-set_source}

module _ (m : Matchers) where
  -- Why the rules of a source, the first at position `n`, do not compile.
  pub data BadRule (source : SourceId) (n : ℕ) (specs : List RuleSpec) : RuleError → Type 0 where
    bad_rule :
        {reason : InvalidRule} (k : ℕ) (spec : RuleSpec) (b : Builder)
        → get_elem? specs k ≡ some spec
        → rule m spec b ≡ err reason
        → BadRule source n specs (invalid source (n + k) reason)

  BadRule-later :
      {source : SourceId} {n : ℕ} {spec : RuleSpec} {specs : List RuleSpec} {e : RuleError}
      → BadRule source (suc n) specs e
      → BadRule source n (spec ∷ specs) e
  BadRule-later {source} {n} {spec} {specs} (bad_rule {reason} k other b at h) =
      subst (λ i. BadRule source n (spec ∷ specs) (invalid source i reason)) (omega arith)
        (bad_rule (suc k) other b at h)

  with_source-BadRule :
      {A : Type 0} (source : SourceId) (n : ℕ) (x : Result InvalidRule A) (e : RuleError)
      → with_source m source n x ≡ err e
      → (reason : InvalidRule) × (x ≡ err reason) × (e ≡ invalid source n reason)
  with_source-BadRule source n (ok a) e h = absurd (cc)
  with_source-BadRule source n (err reason) e h = (reason, refl, err-cancel h refl)

  source_rules-BadRule :
      (source : SourceId) (n : ℕ) (specs : List RuleSpec) (b : Builder) (e : RuleError)
      → source_rules m source n specs b ≡ err e
      → BadRule source n specs e
  unfolding source_rules
  source_rules-BadRule source n [] b e h = absurd (cc)
  source_rules-BadRule source n (spec ∷ specs) b e h =
      elim (err-bind (with_source m source n (rule m spec b)) _ e h) [
        | inl here ↦
            let (reason, refused, same) = with_source-BadRule source n (rule m spec b) e here in
            subst (BadRule source n (spec ∷ specs)) (sym same) (
              subst (λ i. BadRule source n (spec ∷ specs) (invalid source i reason)) (omega arith)
                (bad_rule 0 spec b refl refused))
        | inr (x, first, more) ↦
            elim (err-bind (source_rules m source (suc n) specs x.0) _ e more) [
              | inl there ↦ BadRule-later (source_rules-BadRule source (suc n) specs x.0 e there)
              | inr (y, second, never) ↦ absurd (cc never)
            ]
      ]

  -- Why rules do not compile: a source that is listed twice, a rule that does not compile, or
  -- patterns that make no set.
  pub data Refused (rules : List (SourceId × List RuleSpec)) : RuleError → Type 0 where
    repeated :
        {source : SourceId} (before after : List (SourceId × List RuleSpec))
        (specs others : List RuleSpec)
        → rules ≡ before ++ (source, specs) ∷ after
        → Listed m source others before
        → Refused rules (duplicate_source source)
    unfit :
        {e : RuleError} (source : SourceId) (specs : List RuleSpec)
        → Listed m source specs rules
        → BadRule source 0 specs e
        → Refused rules e
    no_set : (patterns : List String) → m.build_regexes patterns ≡ none → Refused rules regex_set

  Listed-in :
      (source : SourceId) (specs : List RuleSpec) (before after : List (SourceId × List RuleSpec))
      → Listed m source specs (before ++ (source, specs) ∷ after)
  Listed-in source specs [] after = inl (refl, refl)
  Listed-in source specs (x ∷ before) after = inr (Listed-in source specs before after)

  Listed-append :
      (source : SourceId) (specs : List RuleSpec) (xs ys : List (SourceId × List RuleSpec))
      → Listed m source specs xs
      → Listed m source specs (xs ++ ys)
  Listed-append source specs [] ys h = absurd h
  Listed-append source specs (x ∷ xs) ys (inl h) = inl h
  Listed-append source specs (x ∷ xs) ys (inr h) = inr (Listed-append source specs xs ys h)

  -- The sources that are there are listed before.
  Seen : List (SourceId × List RuleSpec) → Sources m → Type 0
  Seen before sources =
      (id : SourceId)
      → is_some (source_at m id sources) ≡ true
      → (specs : List RuleSpec) × Listed m id specs before

  Seen-next :
      (before : List (SourceId × List RuleSpec)) (source : SourceId) (specs : List RuleSpec)
      (v : SourceRules m) (sources : Sources m)
      → Seen before sources
      → Seen (before ++ (source, specs) ∷ []) (set_source m source v sources)
  unfolding Seen
  Seen-next before source specs v sources seen id h = elim (Bool-cases (id == source)) [
    | inl same ↦ (
      specs,
      subst (λ s. Listed m s specs (before ++ (source, specs) ∷ []))
          (sym ((==_iff id source).0 same)) (Listed-in source specs before []),
    )
    | inr other ↦
        let (found, listed) =
          seen id (ground (arith, h, get-set_source m id source v sources, other)) in
        (found, Listed-append id found before ((source, specs) ∷ []) listed)
  ]

  compile_each-Refused :
      (before rules : List (SourceId × List RuleSpec)) (usernames : List (SourceId × Option String))
      (b : Builder) (sources : Sources m) (e : RuleError)
      → Seen before sources
      → compile_each m rules usernames b sources ≡ err e
      → Refused (before ++ rules) e
  unfolding compile_each Seen
  compile_each-Refused before [] usernames b sources e seen h = absurd (cc)
  compile_each-Refused before ((id, specs) ∷ rules) usernames b sources e seen h =
      elim (Bool-cases (is_some (source_at m id sources))) [
        | inl taken ↦
            let (others, listed) = seen id taken in
            let first : compile_each m ((id, specs) ∷ rules) usernames b sources
                ≡ err (duplicate_source id) =
              rw (taken, compile_each) refl in
            subst (λ d. Refused (before ++ (id, specs) ∷ rules) d) (err-cancel first h)
              (repeated before rules specs others refl listed)
        | inr free ↦
            let next : Builder × List (CompiledRule m) → Result RuleError (Builder × Sources m) =
              λ w. compile_each m rules usernames w.0 (
                set_source m id (record { rules = w.1; username = username_of m id usernames })
                  sources) in
            let good : compile_each m ((id, specs) ∷ rules) usernames b sources
                ≡ (source_rules m id 0 specs b >>= next) =
              rw (free, compile_each) refl in
            elim (err-bind (source_rules m id 0 specs b) next e (sym good ∙ h)) [
              | inl here ↦
                  unfit id specs (Listed-in id specs before rules)
                    (source_rules-BadRule id 0 specs b e here)
              | inr (x, compiled, more) ↦
                  subst (λ l. Refused l e) (append_assoc before ((id, specs) ∷ []) rules)
                    (compile_each-Refused (before ++ (id, specs) ∷ []) rules usernames x.0
                      (set_source m id
                        (record { rules = x.1; username = username_of m id usernames }) sources)
                      e (Seen-next before id specs _ sources seen) more)
            ]
      ]

  combined-Refused :
      (rules : List (SourceId × List RuleSpec)) (patterns : List String) (e : RuleError)
      → combined m patterns ≡ err e
      → Refused rules e
  unfolding combined
  combined-Refused rules [] e h = absurd (cc)
  combined-Refused rules (x ∷ patterns) e h = elim (Option-cases (m.build_regexes (x ∷ patterns))) [
    | inl none_built ↦
        let first : combined m (x ∷ patterns) ≡ err regex_set = rw (none_built, combined) refl in
        subst (Refused rules) (err-cancel first h) (no_set (x ∷ patterns) none_built)
    | inr (regexes, built) ↦ absurd (ground (arith, h, built))
  ]

  -- When compile refuses rules, the error tells why: a source that it calls duplicate is listed,
  -- and listed before; a rule that it calls invalid stands at that position among the rules of
  -- that source, and does not compile for that reason; and for an error of a regex set there are
  -- patterns that make no set.
  pub compile-Refused :
      (token : ℕ) (rules : List (SourceId × List RuleSpec))
      (usernames : List (SourceId × Option String)) (e : RuleError)
      → compile m token rules usernames ≡ err e
      → Refused rules e
  unfolding compile Seen
  compile-Refused token rules usernames e h =
      elim (err-bind (compile_each m rules usernames (empty_builder m) []) _ e h) [
        | inl each ↦
            compile_each-Refused [] rules usernames (empty_builder m) [] e
              (λ id there. absurd (cc there)) each
        | inr (x, compiled, more) ↦ elim (err-bind (combined m x.0.text_patterns) _ e more) [
          | inl text ↦ combined-Refused rules x.0.text_patterns e text
          | inr (text, built, behind) ↦
              elim (err-bind (combined m x.0.callback_patterns) _ e behind) [
                | inl callback ↦ combined-Refused rules x.0.callback_patterns e callback
                | inr (callback, done, never) ↦ absurd (cc never)
              ]
        ]
      ]
