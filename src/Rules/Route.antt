-- ===== src/Rules/Route.antt =====
-- `RouteTable::route` and what it matches with, of crates/tgin-core/src/rules/eval.rs.
use Prim.Native.Char.{code}
use Prim.Native.String.{len}
use tgin.Prelude.{
  ℕ, zero, suc, ◌+◌, ◌-◌, Bool, true, false, not, ◌&&◌, ◌||◌, Option, none, some, List, [], ◌∷◌,
  String, length, is_some, is_empty, get_elem?, leb, ◌==◌, if◌then◌else◌,
}
use tgin.Prelude.Eq.{EqTest, string_eq, int_eq, member}
use tgin.Core.{SourceId, ChatType, has_bit, Facts, ordering_key, option_map}
use tgin.Rules.Table.{Matchers, Range, TextMatcher, CompiledRule, SourceRules, RouteTable}
use tgin.Rules.Compile.{source_at}
use tgin.Rules.Walk.{walk}

-- `set.contains` is a function; `done` says that it is the result for the current update.
pub record RegexScratch : Type 0 where
  pub set : ℕ → Bool
  pub done : Bool

pub record MatchScratch : Type 0 where
  pub owner : Option ℕ
  pub text : Option RegexScratch
  pub callback : Option RegexScratch

abbrev pub new_scratch : RegexScratch
new_scratch = record { set = λ _. false; done = false }

abbrev pub not_done : RegexScratch → RegexScratch
not_done s = record s { done = false }

abbrev pub is_owner : ℕ → Option ℕ → Bool
is_owner token none = false
is_owner token (some owner) = owner == token

abbrev pub lower : ℕ → ℕ
lower c = if leb b'A' c && leb c b'Z' then c + 32 else c

-- `eq_ignore_ascii_case`
unfoldable pub eq_ignore_case : String → String → Bool
eq_ignore_case String.[] String.[] = true
eq_ignore_case String.[] (String.◌∷◌ d t) = false
eq_ignore_case (String.◌∷◌ c s) String.[] = false
eq_ignore_case (String.◌∷◌ c s) (String.◌∷◌ d t) =
    lower (code c) == lower (code d) && eq_ignore_case s t

-- An `is_empty() || …contains`, of an option.
abbrev pub member_of {ℓ} : {A : Type ℓ} ⦃e : EqTest A⦄ → Option A → List A → Bool
member_of none xs = false
member_of (some x) xs = member x xs

abbrev pub has_type : ℕ → Option ChatType → Bool
has_type mask none = false
has_type mask (some t) = has_bit mask t

-- Any of `n` pattern ids from `start` on.
unfoldable pub any_from : (ℕ → Bool) → ℕ → ℕ → Bool
any_from found zero start = false
any_from found (suc n) start = found start || any_from found n (suc start)

module _ (m : Matchers) where
  unfoldable pub prepare : RouteTable m → MatchScratch → MatchScratch
  prepare table scratch =
      if is_owner table.token scratch.owner
      then record scratch {
        text = option_map not_done scratch.text;
        callback = option_map not_done scratch.callback;
      }
      else record {
        owner = some table.token;
        text = option_map (λ _. new_scratch) table.text_regex;
        callback = option_map (λ _. new_scratch) table.callback_regex;
      }

  abbrev pub bot_matches : Option String → Option String → Bool
  bot_matches username none = true
  bot_matches none (some bot) = false
  bot_matches (some name) (some bot) = eq_ignore_case name bot

  abbrev pub covers : Option ℕ → ℕ → Bool
  covers none n = false
  covers (some end) n = end == n

  unfoldable pub command_matches :
      m.Automaton → Option String → Option (String × Option String) → Bool
  unfolding eq_ignore_case
  command_matches a username none = false
  command_matches a username (some (name, bot)) =
      if not (bot_matches username bot) then false else covers (m.matched a name) (len name)

  -- The one search of a field for an update.
  abbrev pub searched : m.Regexes → String → RegexScratch → RegexScratch
  searched regexes text s =
      if s.done then s else record { set = m.matches_at regexes text; done = true }

  unfoldable pub regex_matches :
      Range → String → Option m.Regexes → Option RegexScratch → Bool × Option RegexScratch
  unfolding any_from
  regex_matches ids text none scratch = (false, scratch)
  regex_matches ids text (some regexes) none = (false, none)
  regex_matches ids text (some regexes) (some s) =
      let s' = searched regexes text s in (any_from s'.set (ids.end - ids.start) ids.start, some s')

  unfoldable pub text_matches :
      TextMatcher m
      → Option String
      → Option m.Regexes
      → Option RegexScratch
      → Bool × Option RegexScratch
  unfolding regex_matches
  text_matches matcher none regexes scratch = (false, scratch)
  text_matches (TextMatcher.prefix a) (some text) regexes scratch =
      (is_some (m.matched a text), scratch)
  text_matches (TextMatcher.equals set) (some text) regexes scratch = (member text set, scratch)
  text_matches (TextMatcher.regex ids) (some text) regexes scratch =
      regex_matches ids text regexes scratch

  -- `is_none_or`, of a matcher.
  abbrev pub none_or_matches :
      Option (TextMatcher m)
      → Option String
      → Option m.Regexes
      → Option RegexScratch
      → Bool × Option RegexScratch
  none_or_matches none text regexes scratch = (true, scratch)
  none_or_matches (some matcher) text regexes scratch = text_matches matcher text regexes scratch

  abbrev pub commands_match :
      Option m.Automaton → Option String → Option (String × Option String) → Bool
  commands_match none username command = true
  commands_match (some a) username command = command_matches a username command

  -- The part of `matches` before the texts.
  unfoldable pub facts_match : SourceRules m → CompiledRule m → Facts → Bool
  unfolding command_matches
  facts_match source rule facts =
      (is_empty rule.update_types || member facts.update_type rule.update_types)
      && (is_empty rule.chat_ids || member_of facts.chat_id rule.chat_ids)
      && (rule.chat_types == 0 || has_type rule.chat_types facts.chat_type)
      && (is_empty rule.user_ids || member_of facts.user_id rule.user_ids)
      && commands_match rule.commands source.username facts.command

  unfoldable pub matches :
      RouteTable m → SourceRules m → CompiledRule m → Facts → MatchScratch → Bool × MatchScratch
  unfolding facts_match text_matches
  matches table source rule facts scratch =
      if not (facts_match source rule facts)
      then (false, scratch)
      else let (text_ok, text) =
          none_or_matches rule.text facts.text table.text_regex scratch.text in
        let after = record scratch { text = text } in
        if not text_ok
        then (false, after)
        else let (callback_ok, callback) =
            none_or_matches rule.callback_data facts.callback_data table.callback_regex
              after.callback in
          (callback_ok, record after { callback = callback })

  -- `iter().position(…)`, from the `n`-th rule on.
  unfoldable pub first_match :
      RouteTable m
      → SourceRules m
      → Facts
      → ℕ
      → List (CompiledRule m)
      → MatchScratch
      → Option ℕ × MatchScratch
  unfolding matches
  first_match table source facts n [] scratch = (none, scratch)
  first_match table source facts n (rule ∷ rules) scratch =
      let (found, after) = matches table source rule facts scratch in
      let rest = first_match table source facts (suc n) rules after in
      if found then (some n, after) else rest

  pub record Routed : Type 0 where
    pub matched : Option ℕ
    pub out : List ℕ
    pub cursors : ℕ → ℕ
    pub scratch : MatchScratch

  -- The end of `route`: the walk from the rule's root, on as much fuel as there are nodes.
  unfoldable pub walked :
      RouteTable m → SourceRules m → Facts → (ℕ → ℕ) → Option ℕ × MatchScratch → Option Routed
  unfolding walk ordering_key
  walked table source facts cursors (none, scratch) =
      some (record { matched = none; out = []; cursors = cursors; scratch = scratch })
  walked table source facts cursors (some n, scratch) = elim (get_elem? source.rules n) [
    | none ↦ none
    | some rule ↦
        elim (walk table.nodes table.children (length table.nodes) rule.root (ordering_key facts)
          (record { cursors = cursors; out = [] })) [
            | none ↦ none
            | some w ↦
                some
                  (record { matched = some n; out = w.out; cursors = w.cursors; scratch = scratch })
          ]
  ]

  unfoldable pub route : RouteTable m → SourceId → Facts → (ℕ → ℕ) → MatchScratch → Option Routed
  unfolding walked first_match prepare
  route table source facts cursors scratch = elim (source_at m source table.sources) [
    | none ↦ some (record { matched = none; out = []; cursors = cursors; scratch = scratch })
    | some rules ↦
        walked table rules facts cursors
          (first_match table rules facts 0 rules.rules (prepare table scratch))
  ]
