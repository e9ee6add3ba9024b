-- ===== src/Rules/Scratch.antt =====
-- The scratch of crates/tgin-core/src/rules/eval.rs, against matching without one.
use tgin.Prelude.{
  ℕ, zero, suc, ◌+◌, ◌-◌, ◌<◌, ◌≡◌, refl, sym, subst, ◌∙◌, Bool, true, false, not, ◌&&◌, Option,
  none, some, List, [], ◌∷◌, String, is_some, get_elem?, if◌then◌else◌, arith, Bool-cases, inl, inr,
}
use tgin.Prelude.Eq.{string_eq, member}
use tgin.Core.{Facts, option_map}
use tgin.Rules.Table.{Matchers, Range, TextMatcher, CompiledRule, SourceRules, RouteTable}
use tgin.Rules.Route.{
  RegexScratch, MatchScratch, new_scratch, not_done, is_owner, any_from, prepare, searched,
  regex_matches, text_matches, none_or_matches, facts_match, matches, first_match,
}

any_from-same :
    (f g : ℕ → Bool) (n start : ℕ) → ((i : ℕ) → f i ≡ g i) → any_from f n start ≡ any_from g n start
unfolding any_from
any_from-same f g zero start h = refl
any_from-same f g (suc n) start h = cc (h start, any_from-same f g n (suc start) h)

module _ (m : Matchers) where
  -- Matching a text, with nothing remembered.
  abbrev pub plain_regex : Range → String → Option m.Regexes → Bool
  plain_regex ids text none = false
  plain_regex ids text (some regexes) =
      any_from (m.matches_at regexes text) (ids.end - ids.start) ids.start

  abbrev pub plain_text : TextMatcher m → Option String → Option m.Regexes → Bool
  plain_text matcher none regexes = false
  plain_text (TextMatcher.prefix a) (some text) regexes = is_some (m.matched a text)
  plain_text (TextMatcher.equals set) (some text) regexes = member text set
  plain_text (TextMatcher.regex ids) (some text) regexes = plain_regex ids text regexes

  abbrev pub plain_optional : Option (TextMatcher m) → Option String → Option m.Regexes → Bool
  plain_optional none text regexes = true
  plain_optional (some matcher) text regexes = plain_text matcher text regexes

  -- A rule matches the facts.
  unfoldable pub rule_matches : RouteTable m → SourceRules m → Facts → CompiledRule m → Bool
  unfolding any_from
  rule_matches table source facts rule =
      facts_match m source rule facts
      && plain_optional rule.text facts.text table.text_regex
      && plain_optional rule.callback_data facts.callback_data table.callback_regex

  -- What is remembered of a field is what its regexes say of the update's text.
  pub data Cached (text : Option String) : Option m.Regexes → Option RegexScratch → Type 0 where
    nothing : Cached text none none
    kept :
        {regexes : m.Regexes} {s : RegexScratch}
        → ((t : String)
            → text ≡ some t
            → s.done ≡ true
            → (i : ℕ) → s.set i ≡ m.matches_at regexes t i)
        → Cached text (some regexes) (some s)

  regex_matches-plain :
      (ids : Range) (text : String) (regexes : Option m.Regexes) (s : Option RegexScratch)
      → Cached (some text) regexes s
      → ((regex_matches m ids text regexes s).0 ≡ plain_regex ids text regexes)
        × Cached (some text) regexes (regex_matches m ids text regexes s).1
  unfolding regex_matches
  regex_matches-plain ids text _ _ nothing = (refl, nothing)
  regex_matches-plain ids text _ _ (kept {regexes} {s} h) = elim (Bool-cases s.done) [
    | inl finished ↦
        let same : searched m regexes text s ≡ s = ground (arith, finished) in
        rw same (
          any_from-same s.set (m.matches_at regexes text) (ids.end - ids.start) ids.start
              (h text refl finished),
          kept h,
        )
    | inr fresh ↦
        let same : searched m regexes text s
            ≡ record { set = m.matches_at regexes text; done = true } =
          ground (arith, fresh) in
        rw same (refl, kept (λ t e d i. cc e))
  ]

  optional-plain :
      (matcher : Option (TextMatcher m)) (text : Option String) (regexes : Option m.Regexes)
      (s : Option RegexScratch)
      → Cached text regexes s
      → ((none_or_matches m matcher text regexes s).0 ≡ plain_optional matcher text regexes)
        × Cached text regexes (none_or_matches m matcher text regexes s).1
  unfolding text_matches
  optional-plain none text regexes s c = (refl, c)
  optional-plain (some matcher) none regexes s c = (refl, c)
  optional-plain (some (TextMatcher.prefix a)) (some text) regexes s c = (refl, c)
  optional-plain (some (TextMatcher.equals set)) (some text) regexes s c = (refl, c)
  optional-plain (some (TextMatcher.regex ids)) (some text) regexes s c =
      regex_matches-plain ids text regexes s c

  -- The scratch fits an update and a table.
  pub record Valid (table : RouteTable m) (facts : Facts) (scratch : MatchScratch) : Type 0 where
    pub text_cached : Cached facts.text table.text_regex scratch.text
    pub callback_cached : Cached facts.callback_data table.callback_regex scratch.callback

  -- `matches`, from what its three parts answer.
  abbrev pub in_turn :
      Bool
      → MatchScratch
      → Bool × Option RegexScratch
      → Bool × Option RegexScratch
      → Bool × MatchScratch
  in_turn facts_ok scratch (text_ok, text) (callback_ok, callback) =
      if not facts_ok
      then (false, scratch)
      else let after = record scratch { text = text } in
        if not text_ok then (false, after) else (callback_ok, record after { callback = callback })

  in_turn-Valid :
      (table : RouteTable m) (facts : Facts) (scratch : MatchScratch) (facts_ok : Bool)
      (text callback : Bool × Option RegexScratch)
      → Valid table facts scratch
      → Cached facts.text table.text_regex text.1
      → Cached facts.callback_data table.callback_regex callback.1
      → ((in_turn facts_ok scratch text callback).0 ≡ (facts_ok && text.0 && callback.0))
        × Valid table facts (in_turn facts_ok scratch text callback).1
  in_turn-Valid table facts scratch false text callback v t c = (refl, v)
  in_turn-Valid table facts scratch true (false, text) callback v t c =
      (refl, record { text_cached = t; callback_cached = v.callback_cached })
  in_turn-Valid table facts scratch true (true, text) (callback_ok, callback) v t c =
      (refl, record { text_cached = t; callback_cached = c })

  pub matches-in_turn :
      (table : RouteTable m) (source : SourceRules m) (rule : CompiledRule m) (facts : Facts)
      (scratch : MatchScratch)
      → matches m table source rule facts scratch
        ≡ in_turn
            (facts_match m source rule facts)
            scratch
            (none_or_matches m rule.text facts.text table.text_regex scratch.text)
            (none_or_matches m rule.callback_data facts.callback_data table.callback_regex
              scratch.callback)
  unfolding matches
  matches-in_turn table source rule facts scratch = refl

  pub matches-plain :
      (table : RouteTable m) (source : SourceRules m) (rule : CompiledRule m) (facts : Facts)
      (scratch : MatchScratch)
      → Valid table facts scratch
      → ((matches m table source rule facts scratch).0 ≡ rule_matches table source facts rule)
        × Valid table facts (matches m table source rule facts scratch).1
  unfolding rule_matches
  matches-plain table source rule facts scratch v =
      let (text_same, text_kept) =
        optional-plain rule.text facts.text table.text_regex scratch.text v.text_cached in
      let (callback_same, callback_kept) =
        optional-plain rule.callback_data facts.callback_data table.callback_regex scratch.callback
          v.callback_cached in
      let (same, valid) =
        in_turn-Valid table facts scratch (facts_match m source rule facts)
          (none_or_matches m rule.text facts.text table.text_regex scratch.text)
          (none_or_matches m rule.callback_data facts.callback_data table.callback_regex
            scratch.callback)
          v text_kept callback_kept in
      rw (matches-in_turn table source rule facts scratch)
        (same ∙ cc (text_same, callback_same), valid)

  -- The first of the rules for which `p` holds, if there is one.
  abbrev pub IsFirst : (CompiledRule m → Bool) → List (CompiledRule m) → Option ℕ → Type 0
  IsFirst p rules none =
      (i : ℕ) (rule : CompiledRule m) → get_elem? rules i ≡ some rule → p rule ≡ false
  IsFirst p rules (some k) =
      (rule : CompiledRule m) × (get_elem? rules k ≡ some rule)
      × (p rule ≡ true)
      × ((i : ℕ) (other : CompiledRule m)
          → i < k
          → get_elem? rules i ≡ some other
          → p other ≡ false)

  -- The same, counted from `n` on.
  abbrev IsFirstFrom : (CompiledRule m → Bool) → ℕ → List (CompiledRule m) → Option ℕ → Type 0
  IsFirstFrom p n rules none = IsFirst p rules none
  IsFirstFrom p n rules (some k) = (j : ℕ) × (k ≡ n + j) × IsFirst p rules (some j)

  IsFirst-later :
      (p : CompiledRule m → Bool) (n : ℕ) (rule : CompiledRule m) (rules : List (CompiledRule m))
      (r : Option ℕ)
      → p rule ≡ false
      → IsFirstFrom p (suc n) rules r
      → IsFirstFrom p n (rule ∷ rules) r
  IsFirst-later p n rule rules none f h = go
    where
      go :
          (i : ℕ) (other : CompiledRule m)
          → get_elem? (rule ∷ rules) i ≡ some other
          → p other ≡ false
      go zero other e = cc (e, f)
      go (suc i) other e = h i other e
  IsFirst-later p n rule rules (some k) f (j, e, (found, at, holds, before)) =
      (suc j, omega (arith, e), (found, at, holds, go))
    where
      go :
          (i : ℕ) (other : CompiledRule m)
          → i < suc j
          → get_elem? (rule ∷ rules) i ≡ some other
          → p other ≡ false
      go zero other lt g = cc (g, f)
      go (suc i) other lt g = before i other (omega (arith, lt)) g

  first_match-IsFirst :
      (table : RouteTable m) (source : SourceRules m) (facts : Facts) (n : ℕ)
      (rules : List (CompiledRule m)) (scratch : MatchScratch)
      → Valid table facts scratch
      → IsFirstFrom
          (rule_matches table source facts)
          n
          rules
          (first_match m table source facts n rules scratch).0
  unfolding first_match
  first_match-IsFirst table source facts n [] scratch v = λ i rule h. absurd (cc)
  first_match-IsFirst table source facts n (rule ∷ rules) scratch v =
      let (same, valid) = matches-plain table source rule facts scratch v in
      elim (Bool-cases (matches m table source rule facts scratch).0) [
        | inl found ↦
            rw (found, first_match)
              (
                0,
                omega arith,
                (rule, refl, sym same ∙ found, λ i other lt g. absurd (omega (arith, lt))),
              )
        | inr other ↦
            rw (other, first_match)
              (IsFirst-later (rule_matches table source facts) n rule rules _ (sym same ∙ other) (
                first_match-IsFirst table source facts (suc n) rules
                  (matches m table source rule facts scratch).1 valid))
      ]

  -- A scratch that was prepared for this table has room for its regexes.
  pub record Suits (table : RouteTable m) (scratch : MatchScratch) : Type 0 where
    pub text_suits :
        is_owner table.token scratch.owner ≡ true → is_some scratch.text ≡ is_some table.text_regex
    pub callback_suits :
        is_owner table.token scratch.owner ≡ true
        → is_some scratch.callback ≡ is_some table.callback_regex

  Cached-not_done :
      (text : Option String) (regexes : Option m.Regexes) (s : Option RegexScratch)
      → is_some s ≡ is_some regexes
      → Cached text regexes (option_map not_done s)
  Cached-not_done text none none h = nothing
  Cached-not_done text none (some s) h = absurd (cc)
  Cached-not_done text (some regexes) none h = absurd (cc)
  Cached-not_done text (some regexes) (some s) h = kept (λ t e d i. absurd (cc))

  Cached-new :
      (text : Option String) (regexes : Option m.Regexes)
      → Cached text regexes (option_map (λ _. new_scratch) regexes)
  Cached-new text none = nothing
  Cached-new text (some regexes) = kept (λ t e d i. absurd (cc))

  pub prepare-Valid :
      (table : RouteTable m) (facts : Facts) (scratch : MatchScratch)
      → Suits table scratch
      → Valid table facts (prepare m table scratch)
  unfolding prepare
  prepare-Valid table facts scratch s = elim (Bool-cases (is_owner table.token scratch.owner)) [
    | inl own ↦
        rw (own, prepare)
          (record {
            text_cached =
                Cached-not_done facts.text table.text_regex scratch.text (s.text_suits own);
            callback_cached =
                Cached-not_done facts.callback_data table.callback_regex scratch.callback
                  (s.callback_suits own);
          })
    | inr foreign ↦
        rw (foreign, prepare)
          (record {
            text_cached = Cached-new facts.text table.text_regex;
            callback_cached = Cached-new facts.callback_data table.callback_regex;
          })
  ]

  -- With a prepared scratch, which keeps the one search of a field for all rules, the position
  -- that first_match returns is that of the first rule that matches when every rule searches
  -- anew, if the scratch has room for the regexes of the table whenever it was prepared for it.
  pub prepared-IsFirst :
      (table : RouteTable m) (source : SourceRules m) (facts : Facts) (scratch : MatchScratch)
      → Suits table scratch
      → IsFirst
          (rule_matches table source facts)
          source.rules
          (first_match m table source facts 0 source.rules (prepare m table scratch)).0
  prepared-IsFirst table source facts scratch s = from_zero _ (
      first_match-IsFirst table source facts 0 source.rules (prepare m table scratch)
        (prepare-Valid table facts scratch s))
    where
      from_zero :
          (r : Option ℕ)
          → IsFirstFrom (rule_matches table source facts) 0 source.rules r
          → IsFirst (rule_matches table source facts) source.rules r
      from_zero none h = h
      from_zero (some k) (j, e, h) =
          let same : j ≡ k = omega (arith, e) in
          subst (λ z. IsFirst (rule_matches table source facts) source.rules (some z)) same h
