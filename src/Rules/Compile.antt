-- ===== src/Rules/Compile.antt =====
-- `Builder::rule` and `RouteTable::compile` of crates/tgin-core/src/rules/compile.rs.
use Prim.Native.Char.{code}
use tgin.Prelude.{
  ℕ, zero, suc, Bool, true, false, ◌||◌, Option, none, some, List, [], ◌∷◌, ◌++◌, String, length,
  is_some, is_empty, get_elem?, ◌==◌, if◌then◌else◌, Result, ok, err, ◌>>=◌,
}
use tgin.Prelude.Eq.{nat_eq}
use tgin.Core.{SourceId, ChatType, with_bit}
use tgin.Rules.Spec.{
  RuleSpec, TextMatch, TargetSpecs, nil, cons, InvalidRule, no_targets, empty_text_match, automaton,
  invalid_command, invalid_regex, RuleError, duplicate_source, invalid, regex_set,
}
use tgin.Rules.Schedule.{index}
use tgin.Rules.Table.{Matchers, Node, Builder, TextMatcher, CompiledRule, SourceRules, RouteTable}
use tgin.Rules.Targets.{target, group, push}

-- `strip_prefix(c).unwrap_or(s)`, of one character.
abbrev pub without_first : ℕ → String → String
without_first c String.[] = String.[]
without_first c (String.◌∷◌ x s) = if code x == c then s else String.◌∷◌ x s

unfoldable pub has_char : ℕ → String → Bool
has_char c String.[] = false
has_char c (String.◌∷◌ x s) = code x == c || has_char c s

abbrev pub is_blank : String → Bool
is_blank String.[] = true
is_blank (String.◌∷◌ x s) = false

-- The loop over a rule's commands.
unfoldable pub command_names : List String → Result InvalidRule (List String)
unfolding has_char
command_names [] = ok []
command_names (command ∷ commands) =
    let name = without_first b'/' command in
    if is_blank name || has_char b'@' name
    then err (invalid_command command)
    else do names ← command_names commands; ok (name ∷ names)

-- The bits of the chat types, from `mask` on.
unfoldable pub type_bits : ℕ → List ChatType → ℕ
type_bits mask [] = mask
type_bits mask (t ∷ ts) = type_bits (with_bit mask t) ts

pub data Field : Type 0 where
  text_field callback_field : Field

abbrev pub patterns_of : Field → Builder → List String
patterns_of text_field b = b.text_patterns
patterns_of callback_field b = b.callback_patterns

abbrev pub with_patterns : Field → List String → Builder → Builder
with_patterns text_field patterns b = record b { text_patterns = patterns }
with_patterns callback_field patterns b = record b { callback_patterns = patterns }

abbrev pub list_of : TextMatch → List String
list_of (TextMatch.prefix list) = list
list_of (TextMatch.regex list) = list
list_of (TextMatch.equals list) = list

module _ (m : Matchers) where
  unfoldable pub build : List String → Bool → Result InvalidRule m.Automaton
  build patterns ignore_case = elim (m.build_automaton patterns ignore_case) [
    | none ↦ err automaton
    | some a ↦ ok a
  ]

  unfoldable pub command_automaton : List String → Result InvalidRule (Option m.Automaton)
  unfolding build command_names
  command_automaton commands =
      if is_empty commands
      then ok none
      else do names ← command_names commands; a ← build names true; ok (some a)

  -- The first pattern that is no regex, if there is one.
  unfoldable pub first_invalid : List String → Option String
  first_invalid [] = none
  first_invalid (pattern ∷ patterns) =
      if m.valid_regex pattern then first_invalid patterns else some pattern

  unfoldable pub regex_matcher :
      List String → Field → Builder → Result InvalidRule (Builder × TextMatcher m)
  unfolding first_invalid
  regex_matcher list field b = elim (first_invalid list) [
    | some pattern ↦ err (invalid_regex pattern)
    | none ↦
        let patterns = patterns_of field b ++ list in
        ok (
          with_patterns field patterns b,
          TextMatcher.regex (record {
            start = index (length (patterns_of field b));
            end = index (length patterns);
          }),
        )
  ]

  unfoldable pub text_matcher :
      TextMatch → Field → Builder → Result InvalidRule (Builder × TextMatcher m)
  unfolding regex_matcher build
  text_matcher (TextMatch.prefix list) field b =
      if is_empty list
      then err empty_text_match
      else do a ← build list false; ok (b, TextMatcher.prefix a)
  text_matcher (TextMatch.equals list) field b =
      if is_empty list then err empty_text_match else ok (b, TextMatcher.equals list)
  text_matcher (TextMatch.regex list) field b =
      if is_empty list then err empty_text_match else regex_matcher list field b

  -- `as_ref().map(…).transpose()?`
  unfoldable pub optional_matcher :
      Option TextMatch → Field → Builder → Result InvalidRule (Builder × Option (TextMatcher m))
  unfolding text_matcher
  optional_matcher none field b = ok (b, none)
  optional_matcher (some match) field b = do
    (c, matcher) ← text_matcher match field b
    ok (c, some matcher)

  unfoldable pub root : TargetSpecs → Builder → Result InvalidRule (Builder × ℕ)
  unfolding target group push
  root nil b = err no_targets
  root (cons single nil) b = target single b
  root (cons first (cons second more)) b = do
    (c, range) ← group (cons first (cons second more)) b
    ok (push (Node.all range) c)

  unfoldable pub rule : RuleSpec → Builder → Result InvalidRule (Builder × CompiledRule m)
  unfolding command_automaton optional_matcher root type_bits
  rule spec b = do
    let p = spec.predicates
    commands ← command_automaton p.commands
    (c, text) ← optional_matcher p.text text_field b
    (d, callback) ← optional_matcher p.callback_data callback_field c
    (e, node) ← root spec.targets d
    ok (
      e,
      record {
        update_types = p.update_types;
        chat_ids = p.chat_ids;
        chat_types = type_bits 0 p.chat_types;
        user_ids = p.user_ids;
        commands = commands;
        text = text;
        callback_data = callback;
        root = node;
      },
    )

  abbrev pub with_source {ℓ} :
      {A : Type ℓ} → SourceId → ℕ → Result InvalidRule A → Result RuleError A
  with_source source n (ok a) = ok a
  with_source source n (err reason) = err (invalid source n reason)

  -- The loop over the rules of one source, from the `n`-th on.
  unfoldable pub source_rules :
      SourceId → ℕ → List RuleSpec → Builder → Result RuleError (Builder × List (CompiledRule m))
  unfolding rule
  source_rules source n [] b = ok (b, [])
  source_rules source n (spec ∷ specs) b = do
    (c, compiled) ← with_source source n (rule spec b)
    (d, rest) ← source_rules source (suc n) specs c
    ok (d, compiled ∷ rest)

  abbrev pub Sources : Type 0
  Sources = List (Option (SourceRules m))

  -- `if sources.len() <= idx { sources.resize_with(idx + 1, || None) }`, and `sources[idx] = value`.
  unfoldable pub set_source : ℕ → SourceRules m → Sources → Sources
  set_source zero value [] = some value ∷ []
  set_source zero value (old ∷ sources) = some value ∷ sources
  set_source (suc n) value [] = none ∷ set_source n value []
  set_source (suc n) value (old ∷ sources) = old ∷ set_source n value sources

  -- `sources.get(idx)`, with the option inside.
  abbrev pub source_at : ℕ → Sources → Option (SourceRules m)
  source_at n sources = elim (get_elem? sources n) [ none ↦ none | some found ↦ found ]

  -- The username that is listed first for a source, without its `@`.
  unfoldable pub username_of : SourceId → List (SourceId × Option String) → Option String
  username_of source [] = none
  username_of source ((id, name) ∷ names) =
      if id == source
      then (elim name [ none ↦ none | some u ↦ some (without_first b'@' u) ])
      else username_of source names

  -- The loop of `compile`.
  unfoldable pub compile_each :
      List (SourceId × List RuleSpec)
      → List (SourceId × Option String)
      → Builder
      → Sources
      → Result RuleError (Builder × Sources)
  unfolding source_rules set_source username_of
  compile_each [] usernames b sources = ok (b, sources)
  compile_each ((source, specs) ∷ rules) usernames b sources =
      if is_some (source_at source sources) then err (duplicate_source source) else do
        (c, compiled) ← source_rules source 0 specs b
        compile_each rules usernames c (
            set_source source (record { rules = compiled; username = username_of source usernames })
              sources)

  unfoldable pub combined : List String → Result RuleError (Option m.Regexes)
  combined patterns =
      if is_empty patterns
      then ok none
      else elim (m.build_regexes patterns) [ none ↦ err regex_set | some found ↦ ok (some found) ]

  abbrev pub empty_builder : Builder
  empty_builder = record { nodes = []; children = []; text_patterns = []; callback_patterns = [] }

  -- `token` is the pointer that `Arc::new` returns.
  unfoldable pub compile :
      ℕ
      → List (SourceId × List RuleSpec)
      → List (SourceId × Option String)
      → Result RuleError (RouteTable m)
  unfolding compile_each combined
  compile token rules usernames = do
    (b, sources) ← compile_each rules usernames empty_builder []
    text ← combined b.text_patterns
    callback ← combined b.callback_patterns
    ok (record {
      sources = sources;
      nodes = b.nodes;
      children = b.children;
      text_regex = text;
      callback_regex = callback;
      token = token;
    })
