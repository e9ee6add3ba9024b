-- ===== src/Rules/Faithful.antt =====
-- What `Builder::rule` of crates/tgin-core/src/rules/compile.rs makes of the predicates of a rule.
use Prim.Native.String.{len}
use tgin.Prelude.{
  not, if◌then◌else◌, ℕ, ◌≡◌, refl, sym, ap, subst, ◌∙◌, Bool, true, false, ◌&&◌, ◌||◌, Option,
  none, some, List, [], ◌∷◌, map, String, is_empty, ◌==◌, arith, inl, inr, ok, ok-bind, ok-cancel,
  Bool-cases, ◌>>=◌,
}
use tgin.Prelude.Eq.{EqTest, string_eq, int_eq}
use tgin.Core.{Facts}
use tgin.Rules.Spec.{RuleSpec, TargetSpec, TargetSpecs, consumer, all, split, nil, cons}
use tgin.Rules.Table.{Matchers, Builder, Node, CompiledRule, SourceRules, RouteTable}
use tgin.Rules.Targets.{target, targets, push, stored}
use tgin.Rules.Compile.{
  text_field, callback_field, without_first, is_blank, has_char, command_names, command_automaton,
  build, optional_matcher, root, rule,
}
use tgin.Rules.Route.{commands_match, command_matches, bot_matches, covers, member_of, facts_match}
use tgin.Rules.Compiled.{all-ok, split-ok, cons-ok, consumer-ok, nil-ok}
use tgin.Rules.Rooted.{root_target, root-target}
use tgin.Rules.Scratch.{rule_matches}
use tgin.Rules.ChatTypes.{has_type-type_bits}
use tgin.Rules.Patterns.{Later, Later-trans, SamePatterns-Later, Serves, Serves-back}
use tgin.Rules.TextMatchers.{optional_matcher-Written}
use tgin.Rules.Written.{RegexSets, allowed, is_for_bot, name_holds, command_holds, written_holds}

-- Targets add no pattern.
SamePatterns : Builder → Builder → Type 0
SamePatterns b c = (c.text_patterns ≡ b.text_patterns) × (c.callback_patterns ≡ b.callback_patterns)

push-SamePatterns : (node : Node) (b : Builder) → SamePatterns b (push node b).0
unfolding push SamePatterns
push-SamePatterns node b = (refl, refl)

closed-SamePatterns :
    (node : Node) (b : Builder) (done : Builder × List ℕ) (r : Builder × ℕ)
    → SamePatterns b done.0
    → push node (stored done).0 ≡ r
    → SamePatterns b r.0
unfolding push stored SamePatterns
closed-SamePatterns node b (done, ids) r s e = subst (λ (z : Builder × ℕ). SamePatterns b z.0) e s

mutual
  unfolding SamePatterns

  target-SamePatterns :
      (spec : TargetSpec) (b : Builder) (r : Builder × ℕ)
      → target spec b ≡ ok r
      → SamePatterns b r.0
  target-SamePatterns (consumer id) b r h =
      subst (λ (z : Builder × ℕ). SamePatterns b z.0) (consumer-ok id b r h)
        (push-SamePatterns (Node.consumer id) b)
  target-SamePatterns (all specs) b r h =
      let (done, e, f) = all-ok specs b r h in
      closed-SamePatterns (Node.all (stored done).1) b done r (targets-SamePatterns specs b done e)
        f
  target-SamePatterns (split strategy specs weights) b r h =
      let (schedule, done, s, e, f, w) = split-ok strategy specs weights b r h in
      closed-SamePatterns (Node.split strategy (stored done).1 schedule) b done r
        (targets-SamePatterns specs b done e) f

  targets-SamePatterns :
      (specs : TargetSpecs) (b : Builder) (r : Builder × List ℕ)
      → targets specs b ≡ ok r
      → SamePatterns b r.0
  targets-SamePatterns nil b r h =
      subst (λ (z : Builder × List ℕ). SamePatterns b z.0) (nil-ok b r h) (refl, refl)
  targets-SamePatterns (cons spec specs) b r h =
      let (one, rest, e, f, g) = cons-ok spec specs b r h in
      let (t, k) = target-SamePatterns spec b one e in
      let (u, l) = targets-SamePatterns specs one.0 rest f in
      subst (λ (z : Builder × List ℕ). SamePatterns b z.0) g (u ∙ t, l ∙ k)

allowed-eq {ℓ} :
    {A : Type ℓ} ⦃e : EqTest A⦄ (x : Option A) (xs : List A)
    → (is_empty xs || member_of x xs) ≡ allowed x xs
allowed-eq x [] = refl
allowed-eq none (y ∷ ys) = refl
allowed-eq (some x) (y ∷ ys) = refl

-- The names that are looked for are the commands without their slash.
command_names-map :
    (commands names : List String)
    → command_names commands ≡ ok names
    → names ≡ map (without_first b'/') commands
unfolding command_names
command_names-map [] names h = ground (arith, h)
command_names-map (c ∷ cs) names h =
    elim (Bool-cases (is_blank (without_first b'/' c) || has_char b'@' (without_first b'/' c))) [
      | inl bad ↦ absurd (ground (arith, h, bad))
      | inr good ↦
          let chain : command_names (c ∷ cs)
              ≡ (command_names cs >>= λ ns. ok (without_first b'/' c ∷ ns)) =
            rw (good, command_names) refl in
          let (ns, e, f) = ok-bind (command_names cs) _ names (sym chain ∙ h) in
          ok-cancel refl (sym f) ∙ ap (λ l. without_first b'/' c ∷ l) (command_names-map cs ns e)
    ]

in_a_row :
    (a b c d e t k : Bool) → ((a && b && c && d && e) && t && k) ≡ (a && b && c && d && e && t && k)
in_a_row false b c d e t k = refl
in_a_row true false c d e t k = refl
in_a_row true true false d e t k = refl
in_a_row true true true false e t k = refl
in_a_row true true true true e t k = refl

all_same :
    {a b c d e t k a' b' c' d' e' t' k' : Bool}
    → a ≡ a'
    → b ≡ b'
    → c ≡ c'
    → d ≡ d'
    → e ≡ e'
    → t ≡ t'
    → k ≡ k'
    → ((a && b && c && d && e) && t && k) ≡ (a' && b' && c' && d' && e' && t' && k')
all_same {a} {b} {c} {d} {e} {t} {k} p q r s u v w =
    in_a_row a b c d e t k ∙ cc (p, q, r, s, u, v, w)

module _ (m : Matchers) where
  is_for_bot-eq :
      (username bot : Option String) → bot_matches m username bot ≡ is_for_bot username bot
  is_for_bot-eq username none = refl
  is_for_bot-eq none (some bot) = refl
  is_for_bot-eq (some name) (some bot) = refl

  whole_name :
      (x : Bool) (o : Option ℕ) (n : ℕ)
      → (if not x then false else covers m o n)
        ≡ (x && elim o [ none ↦ false | some end ↦ end == n ])
  whole_name false o n = refl
  whole_name true none n = refl
  whole_name true (some end) n = refl

  command_automaton-Written :
      (commands : List String) (a : Option m.Automaton) (username : Option String)
      (command : Option (String × Option String))
      → command_automaton m commands ≡ ok a
      → commands_match m a username command ≡ command_holds m commands username command
  unfolding command_automaton build command_matches
  command_automaton-Written [] a username command h =
      subst (λ z. commands_match m z username command ≡ true) (ok-cancel refl h) refl
  command_automaton-Written (c ∷ cs) a username command h =
      let (names, e, f) = ok-bind (command_names (c ∷ cs)) _ a h in
      let (found, g, k) = ok-bind (build m names true) _ a f in
      subst (λ z. commands_match m z username command ≡ command_holds m (c ∷ cs) username command)
        (ok-cancel refl k)
        (finds_name found
          (ap (λ l. m.build_automaton l true) (sym (command_names-map (c ∷ cs) names e))
            ∙ built names found g)
          command)
    where
      built :
          (names : List String) (found : m.Automaton)
          → build m names true ≡ ok found
          → m.build_automaton names true ≡ some found
      built names found g = ground (arith, g)

      finds_name :
          (found : m.Automaton)
          → m.build_automaton (map (without_first b'/') (c ∷ cs)) true ≡ some found
          → (command : Option (String × Option String))
          → commands_match m (some found) username command
            ≡ command_holds m (c ∷ cs) username command
      finds_name found e none = refl
      finds_name found e (some (name, bot)) =
          whole_name (is_for_bot username bot) (m.matched found name) (len name)
          ∙ ap (λ o. is_for_bot username bot && name_holds m o name) (sym e)

  module _ (finds : String → String → Bool) (laws : RegexSets m finds) where
    -- A compiled rule matches by what is written for it, in every table that serves it.
    abbrev pub RuleWritten : RuleSpec → Builder → Builder × CompiledRule m → Type 0
    RuleWritten spec b (c, compiled) =
        Later b c
        × ((table : RouteTable m) (source : SourceRules m) (facts : Facts)
            → Serves m text_field c table.text_regex
            → Serves m callback_field c table.callback_regex
            → rule_matches m table source facts compiled
              ≡ written_holds m finds source.username facts spec.predicates)

    pub rule-Written :
        (spec : RuleSpec) (b : Builder) (r : Builder × CompiledRule m)
        → rule m spec b ≡ ok r
        → RuleWritten spec b r
    unfolding rule rule_matches facts_match written_holds SamePatterns
    rule-Written spec b r h =
        let p = spec.predicates in
        let (commands, e0, h0) = ok-bind (command_automaton m p.commands) _ r h in
        let (x, e1, h1) = ok-bind (optional_matcher m p.text text_field b) _ r h0 in
        let (y, e2, h2) = ok-bind (optional_matcher m p.callback_data callback_field x.0) _ r h1 in
        let (z, e3, h3) = ok-bind (root m spec.targets y.0) _ r h2 in
        let (t, k) =
          target-SamePatterns (root_target spec.targets) y.0 z
            (root-target m spec.targets y.0 z e3) in
        let (text_later, text) = optional_matcher-Written m finds laws p.text text_field b x e1 in
        let (callback_later, callback) =
          optional_matcher-Written m finds laws p.callback_data callback_field x.0 y e2 in
        let last = SamePatterns-Later y.0 z.0 t k in
        subst (RuleWritten spec b) (ok-cancel refl h3) (
          Later-trans text_later (Later-trans callback_later last),
          λ table source facts s u.
              let text_is =
                text table.text_regex facts.text
                  (Serves-back m text_field table.text_regex (Later-trans callback_later last) s) in
              let callback_is =
                callback table.callback_regex facts.callback_data
                  (Serves-back m callback_field table.callback_regex last u) in
              all_same (allowed-eq (some facts.update_type) p.update_types)
                (allowed-eq facts.chat_id p.chat_ids)
                (has_type-type_bits p.chat_types facts.chat_type)
                (allowed-eq facts.user_id p.user_ids)
                (command_automaton-Written p.commands commands source.username facts.command e0)
                text_is callback_is,
        )
