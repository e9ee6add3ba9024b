-- ===== src/Rules/Written.antt =====
-- What the predicates of a rule ask for, as crates/tgin-core/src/rules/spec.rs writes them, without
-- a table: the lists, texts and commands that are written against the facts of an update.
use Prim.Native.String.{len}
use tgin.Prelude.{
  ℕ, ◌≡◌, ◌≤◌, ◌<◌, Bool, true, false, ◌&&◌, ◌||◌, ◌⊎◌, Option, none, some, List, [], ◌∷◌, map,
  String, length, is_some, get_elem?, ◌==◌,
}
use tgin.Prelude.Eq.{EqTest, string_eq, int_eq, member}
use tgin.Prelude.Words.{u32_max}
use tgin.Core.{SourceId, ChatType, ordinal, Facts, option_map}
use tgin.Rules.Spec.{Predicates, TextMatch}
use tgin.Rules.Table.{Matchers}
use tgin.Rules.Compile.{without_first}
use tgin.Rules.Route.{eq_ignore_case}

-- An empty list allows everything, another one what it holds.
abbrev pub allowed {ℓ} : {A : Type ℓ} ⦃e : EqTest A⦄ → Option A → List A → Bool
allowed x [] = true
allowed none (y ∷ ys) = false
allowed (some x) (y ∷ ys) = member x (y ∷ ys)

abbrev pub type_among : ChatType → List ChatType → Bool
type_among t [] = false
type_among t (u ∷ us) = ordinal u == ordinal t || type_among t us

abbrev pub type_allowed : Option ChatType → List ChatType → Bool
type_allowed x [] = true
type_allowed none (u ∷ us) = false
type_allowed (some t) (u ∷ us) = type_among t (u ∷ us)

-- A command that names a bot is for the bot of that name alone.
abbrev pub is_for_bot : Option String → Option String → Bool
is_for_bot username none = true
is_for_bot none (some bot) = false
is_for_bot (some name) (some bot) = eq_ignore_case name bot

-- The username of a source, from the first of the pairs that is the source's.
abbrev pub IsNameOf : SourceId → List (SourceId × Option String) → Option String → Type 0
IsNameOf source [] username = username ≡ none
IsNameOf source ((id, name) ∷ names) username =
    ((id ≡ source) × (username ≡ option_map (without_first b'@') name))
    ⊎ ((id ≡ source → ⊥) × IsNameOf source names username)

-- The first of a list for which `p` holds, if there is one.
abbrev pub FirstOf {ℓ} : {A : Type ℓ} → (A → Bool) → List A → Option ℕ → Type ℓ
FirstOf p xs none = (i : ℕ) (x : _) → get_elem? xs i ≡ some x → p x ≡ false
FirstOf p xs (some k) =
    (x : _) × (get_elem? xs k ≡ some x)
    × (p x ≡ true)
    × ((i : ℕ) (other : _) → i < k → get_elem? xs i ≡ some other → p other ≡ false)

module _ (m : Matchers) where
  abbrev pub prefix_holds : Option m.Automaton → String → Bool
  prefix_holds none text = false
  prefix_holds (some a) text = is_some (m.matched a text)

  -- The automaton finds the whole name.
  abbrev pub name_holds : Option m.Automaton → String → Bool
  name_holds none name = false
  name_holds (some a) name = elim (m.matched a name) [ none ↦ false | some end ↦ end == len name ]

  abbrev pub command_holds : List String → Option String → Option (String × Option String) → Bool
  command_holds [] username command = true
  command_holds (c ∷ cs) username none = false
  command_holds (c ∷ cs) username (some (name, bot)) =
      is_for_bot username bot
      && name_holds (m.build_automaton (map (without_first b'/') (c ∷ cs)) true) name

module _ (m : Matchers) (finds : String → String → Bool) where
  -- What a set of regexes does, when `finds` says what one regex finds: it answers for each of its
  -- patterns, by the pattern's position, and has no more of them than an id can count.
  pub record RegexSets : Type 0 where
    pub found :
        (patterns : List String) (regexes : m.Regexes)
        → m.build_regexes patterns ≡ some regexes
        → (i : ℕ) (pattern text : String) → get_elem? patterns i ≡ some pattern
        → m.matches_at regexes text i ≡ finds pattern text
    pub few :
        (patterns : List String) (regexes : m.Regexes)
        → m.build_regexes patterns ≡ some regexes
        → length patterns ≤ u32_max

  abbrev pub any_finds : List String → String → Bool
  any_finds [] text = false
  any_finds (pattern ∷ patterns) text = finds pattern text || any_finds patterns text

  abbrev pub text_holds : Option TextMatch → Option String → Bool
  text_holds none text = true
  text_holds (some match) none = false
  text_holds (some (TextMatch.prefix list)) (some text) =
      prefix_holds m (m.build_automaton list false) text
  text_holds (some (TextMatch.equals list)) (some text) = member text list
  text_holds (some (TextMatch.regex list)) (some text) = any_finds list text

  -- Every predicate of a rule holds of the facts, for a source with this username.
  unfoldable pub written_holds : Option String → Facts → Predicates → Bool
  written_holds username facts p =
      allowed (some facts.update_type) p.update_types
      && allowed facts.chat_id p.chat_ids
      && type_allowed facts.chat_type p.chat_types
      && allowed facts.user_id p.user_ids
      && command_holds m p.commands username facts.command
      && text_holds p.text facts.text
      && text_holds p.callback_data facts.callback_data
