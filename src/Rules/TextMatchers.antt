-- ===== src/Rules/TextMatchers.antt =====
-- What the text matchers of crates/tgin-core/src/rules/compile.rs find, against the texts that are
-- written.
use tgin.Prelude.{
  ℕ, suc, ◌+◌, ◌-◌, ◌≡◌, refl, sym, ap, subst, ◌∙◌, Bool, false, Option, none, some, List, [], ◌∷◌,
  ◌++◌, String, length, length-append, get_elem?, arith, Option-cases, inl, inr, ok, ok-bind,
  ok-cancel,
}
use tgin.Rules.Spec.{TextMatch}
use tgin.Rules.Schedule.{index}
use tgin.Rules.Table.{Matchers, Builder, TextMatcher}
use tgin.Rules.Compile.{
  Field, text_field, callback_field, text_matcher, regex_matcher, first_invalid, build,
  optional_matcher, combined, with_patterns, patterns_of,
}
use tgin.Rules.Route.{any_from}
use tgin.Rules.Scratch.{plain_regex, plain_text, plain_optional}
use tgin.Rules.Written.{RegexSets, any_finds, prefix_holds, text_holds}
use tgin.Rules.Patterns.{
  Later, Later-refl, with_patterns-Later, get_elem?-middle, Serves, combined-built,
}

module _ (m : Matchers) where
  module _ (finds : String → String → Bool) (laws : RegexSets m finds) where
    any_from-finds :
        (f : ℕ → Bool) (list : List String) (start : ℕ) (text : String)
        → ((i : ℕ) (p : String) → get_elem? list i ≡ some p → f (start + i) ≡ finds p text)
        → any_from f (length list) start ≡ any_finds m finds list text
    unfolding any_from
    any_from-finds f [] start text h = refl
    any_from-finds f (p ∷ list) start text h =
        let here : f start ≡ finds p text = ap f (omega arith) ∙ h 0 p refl in
        let rest =
          any_from-finds f list (suc start) text (λ i q e. ap f (omega arith) ∙ h (suc i) q e) in
        cc (here, rest)

    -- The ids of a regex matcher are those of its patterns.
    ids_of :
        (pre : List String) (x : String) (list : List String) (regexes : Option m.Regexes)
        (text : String)
        → (rest : List String) × (combined m ((pre ++ x ∷ list) ++ rest) ≡ ok regexes)
        → plain_regex m
            (record { start = index (length pre); end = index (length (pre ++ x ∷ list)) })
            text
            regexes
          ≡ any_finds m finds (x ∷ list) text
    ids_of pre x list regexes text (rest, h) =
        let (found, is, built) = combined-built m pre x list rest regexes h in
        let few = laws.few ((pre ++ x ∷ list) ++ rest) found built in
        let all_length = length-append (pre ++ x ∷ list) rest in
        let pre_length = length-append pre (x ∷ list) in
        let start : index (length pre) ≡ length pre = ground (arith, few, all_length, pre_length) in
        let size : index (length (pre ++ x ∷ list)) - length pre ≡ length (x ∷ list) =
          ground (arith, few, all_length, pre_length) in
        ap
          (plain_regex m
            (record { start = index (length pre); end = index (length (pre ++ x ∷ list)) }) text)
          is
        ∙ rw (start, size)
            (any_from-finds (m.matches_at found text) (x ∷ list) (length pre) text (λ i p e.
              laws.found ((pre ++ x ∷ list) ++ rest) found built (length pre + i) p text
                (get_elem?-middle pre (x ∷ list) rest i p e)))

    abbrev added : String → List String → Field → Builder → Builder × TextMatcher m
    added x list field b = (
      with_patterns field (patterns_of field b ++ x ∷ list) b,
      TextMatcher.regex (record {
        start = index (length (patterns_of field b));
        end = index (length (patterns_of field b ++ x ∷ list));
      }),
    )

    in_builder :
        (field : Field) (b : Builder) (list : List String) (regexes : Option m.Regexes)
        → Serves m field (with_patterns field (patterns_of field b ++ list) b) regexes
        → (rest : List String) × (combined m ((patterns_of field b ++ list) ++ rest) ≡ ok regexes)
    in_builder text_field b list regexes s = s
    in_builder callback_field b list regexes s = s

    regex_matcher-Written :
        (x : String) (list : List String) (field : Field) (b : Builder)
        (r : Builder × TextMatcher m)
        → regex_matcher m (x ∷ list) field b ≡ ok r
        → Later b r.0
          × ((regexes : Option m.Regexes) (text : String)
              → Serves m field r.0 regexes
              → plain_text m r.1 (some text) regexes ≡ any_finds m finds (x ∷ list) text)
    unfolding regex_matcher
    regex_matcher-Written x list field b r h = elim (Option-cases (first_invalid m (x ∷ list))) [
      | inr (pattern, bad) ↦ absurd (ground (arith, h, bad))
      | inl good ↦
          let answer : regex_matcher m (x ∷ list) field b ≡ ok (added x list field b) =
            rw (good, regex_matcher) refl in
          subst
            (λ (z : Builder × TextMatcher m).
              Later b z.0
              × ((regexes : Option m.Regexes) (text : String)
                  → Serves m field z.0 regexes
                  → plain_text m z.1 (some text) regexes ≡ any_finds m finds (x ∷ list) text))
            (ok-cancel answer h)
            (
              with_patterns-Later field (x ∷ list) b,
              λ regexes text s.
                  ids_of (patterns_of field b) x list regexes text
                    (in_builder field b (x ∷ list) regexes s),
            )
    ]

    -- A compiled matcher finds the texts that are written, in every table that serves it.
    abbrev TextWritten : TextMatch → Field → Builder → Builder × TextMatcher m → Type 0
    TextWritten match field b (c, matcher) =
        Later b c
        × ((regexes : Option m.Regexes) (text : Option String)
            → Serves m field c regexes
            → plain_text m matcher text regexes ≡ text_holds m finds (some match) text)

    build-some :
        (patterns : List String) (ignore_case : Bool) (a : m.Automaton)
        → build m patterns ignore_case ≡ ok a
        → m.build_automaton patterns ignore_case ≡ some a
    unfolding build
    build-some patterns ignore_case a h = ground arith

    plain_text-none :
        (matcher : TextMatcher m) (regexes : Option m.Regexes)
        → plain_text m matcher none regexes ≡ false
    plain_text-none matcher regexes = refl

    text_matcher-Written :
        (match : TextMatch) (field : Field) (b : Builder) (r : Builder × TextMatcher m)
        → text_matcher m match field b ≡ ok r
        → TextWritten match field b r
    unfolding text_matcher
    text_matcher-Written (TextMatch.prefix []) field b r h = absurd (cc)
    text_matcher-Written (TextMatch.prefix (x ∷ list)) field b r h =
        let (a, e, f) = ok-bind (build m (x ∷ list) false) _ r h in
        subst (TextWritten (TextMatch.prefix (x ∷ list)) field b) (ok-cancel refl f) (
          Later-refl b,
          λ regexes text s. finds_prefix regexes a (build-some (x ∷ list) false a e) text,
        )
      where
        finds_prefix :
            (regexes : Option m.Regexes) (a : m.Automaton)
            → m.build_automaton (x ∷ list) false ≡ some a
            → (text : Option String)
            → plain_text m (TextMatcher.prefix a) text regexes
              ≡ text_holds m finds (some (TextMatch.prefix (x ∷ list))) text
        finds_prefix regexes a e none = refl
        finds_prefix regexes a e (some text) = ap (λ o. prefix_holds m o text) (sym e)
    text_matcher-Written (TextMatch.equals []) field b r h = absurd (cc)
    text_matcher-Written (TextMatch.equals (x ∷ list)) field b r h =
        subst (TextWritten (TextMatch.equals (x ∷ list)) field b) (ok-cancel refl h)
          (Later-refl b, λ regexes text s. finds_equal regexes text)
      where
        finds_equal :
            (regexes : Option m.Regexes) (text : Option String)
            → plain_text m (TextMatcher.equals (x ∷ list)) text regexes
              ≡ text_holds m finds (some (TextMatch.equals (x ∷ list))) text
        finds_equal regexes none = refl
        finds_equal regexes (some text) = refl
    text_matcher-Written (TextMatch.regex []) field b r h = absurd (cc)
    text_matcher-Written (TextMatch.regex (x ∷ list)) field b (c, matcher) h =
        let (later, same) = regex_matcher-Written x list field b (c, matcher) h in
        (later, λ regexes text s. finds_regex regexes (λ t. same regexes t s) text)
      where
        finds_regex :
            (regexes : Option m.Regexes)
            → ((t : String)
                → plain_text m matcher (some t) regexes ≡ any_finds m finds (x ∷ list) t)
            → (text : Option String)
            → plain_text m matcher text regexes
              ≡ text_holds m finds (some (TextMatch.regex (x ∷ list))) text
        finds_regex regexes same none = plain_text-none matcher regexes
        finds_regex regexes same (some t) = same t

    -- The same for a predicate that may be left out.
    abbrev pub OptionalWritten :
        Option TextMatch → Field → Builder → Builder × Option (TextMatcher m) → Type 0
    OptionalWritten match field b (c, matcher) =
        Later b c
        × ((regexes : Option m.Regexes) (text : Option String)
            → Serves m field c regexes
            → plain_optional m matcher text regexes ≡ text_holds m finds match text)

    pub optional_matcher-Written :
        (match : Option TextMatch) (field : Field) (b : Builder)
        (r : Builder × Option (TextMatcher m))
        → optional_matcher m match field b ≡ ok r
        → OptionalWritten match field b r
    unfolding optional_matcher
    optional_matcher-Written none field b r h =
        subst (OptionalWritten none field b) (ok-cancel refl h)
          (Later-refl b, λ regexes text s. refl)
    optional_matcher-Written (some match) field b r h =
        let (x, e, f) = ok-bind (text_matcher m match field b) _ r h in
        subst (OptionalWritten (some match) field b) (ok-cancel refl f)
          (text_matcher-Written match field b x e)
