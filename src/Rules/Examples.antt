-- ===== src/Rules/Examples.antt =====
-- A table of rules, compiled and routed by.
use Prim.Native.String.{len}
use tgin.Prelude.{
  ℕ, Bool, leb, length, ◌≤◌, Bool-cases, inl, inr, ◌≡◌, refl, sym, ap, ◌∙◌, true, false, Option,
  none, some, List, [], ◌∷◌, String, if◌then◌else◌, ◌==◌, arith, get_elem?, ok, err,
}
use tgin.Prelude.Eq.{string_eq, member}
use tgin.Prelude.Int.{pos}
use tgin.Core.{private_chat, Facts}
use tgin.Rules.Spec.{
  RuleSpec, Predicates, TextMatch, TargetSpec, nil, cons, round_robin, duplicate_source,
}
use tgin.Rules.Table
use tgin.Rules.Table.{Matchers, RouteTable, SourceRules, slice, Range, Node, Builder}
use tgin.Rules.Compile.{
  compile, compile_each, source_rules, rule, root, optional_matcher, text_matcher,
  command_automaton, first_invalid, regex_matcher, build, command_names, has_char, type_bits,
  set_source, username_of, combined,
}
use tgin.Rules.Targets.{target, group, grouped, stored, push, split_schedule, split_node}
use tgin.Rules.Route.{
  Routed, MatchScratch, route, walked, first_match, prepare, matches, facts_match, text_matches,
  regex_matches, command_matches, any_from,
}
use tgin.Rules.Walk.{walk, walk_node, each, push_new, pick}
use tgin.Rules.Scratch.{Suits, IsFirst, rule_matches, prepared-IsFirst}
use tgin.Rules.Errors.{Refused, compile-Refused}
use tgin.Rules.Reuse.{unused, used, Used-Suits}
use tgin.Prelude.Words.{wrapping_add, u32_max}
use tgin.Rules.Written.{RegexSets}
use tgin.Rules.Routing.{Answered, compile-Answered}

-- Patterns are texts that are looked for as a whole.
abbrev pub whole : Matchers
whole = record {
  Automaton = List String;
  Regexes = List String;
  build_automaton = λ patterns ignore_case. some patterns;
  matched = λ patterns text. if member text patterns then some (len text) else none;
  valid_regex = λ pattern. true;
  build_regexes = λ patterns. if leb (length patterns) u32_max then some patterns else none;
  matches_at = λ patterns text i. (elim (get_elem? patterns i) [
    | none ↦ false
    | some pattern ↦ member text (pattern ∷ [])
  ]);
}

abbrev anything : Predicates
anything = record {
  update_types = [];
  chat_ids = [];
  chat_types = [];
  user_ids = [];
  commands = [];
  text = none;
  callback_data = none;
}

-- One rule for callbacks, and one for a regex that goes to consumer 1 and in turn to 2 and 1.
abbrev two_rules : List RuleSpec
two_rules =
    record {
      predicates = record anything { update_types = "callback_query" ∷ [] };
      targets = cons (TargetSpec.consumer 9) nil;
    }
    ∷ record {
      predicates = record anything {
        text = some (TextMatch.regex ("hi" ∷ []));
        chat_types = private_chat ∷ [];
      };
      targets =
          cons
            (TargetSpec.all (
              cons (TargetSpec.consumer 1) (
                cons
                  (TargetSpec.split round_robin
                    (cons (TargetSpec.consumer 2) (cons (TargetSpec.consumer 1) nil)) [])
                  nil)))
            nil;
    }
    ∷ []

abbrev listed : SourceRules whole
listed = record {
  rules =
      record {
        update_types = "callback_query" ∷ [];
        chat_ids = [];
        chat_types = 0;
        user_ids = [];
        commands = none;
        text = none;
        callback_data = none;
        root = 0;
      }
      ∷ record {
        update_types = [];
        chat_ids = [];
        chat_types = 1;
        user_ids = [];
        commands = none;
        text = some (Table.regex (record { start = 0; end = 1 }));
        callback_data = none;
        root = 5;
      }
      ∷ [];
  username = none;
}

abbrev pub table : RouteTable whole
table = record {
  sources = some listed ∷ [];
  nodes =
      Node.consumer 9
      ∷ Node.consumer 1
      ∷ Node.consumer 2
      ∷ Node.consumer 1
      ∷ Node.split round_robin (record { start = 0; end = 2 }) []
      ∷ Node.all (record { start = 2; end = 4 })
      ∷ [];
  children = 2 ∷ 3 ∷ 1 ∷ 4 ∷ [];
  text_regex = some ("hi" ∷ []);
  callback_regex = none;
  token = 7;
}

table_is : compile whole 7 ((0, two_rules) ∷ []) [] ≡ ok table
unfolding compile compile_each source_rules rule root optional_matcher text_matcher
    command_automaton first_invalid regex_matcher build command_names has_char type_bits set_source
    username_of combined target group grouped stored push split_schedule split_node
table_is = refl

abbrev pub hello : Facts
hello = record {
  update_type = "message";
  chat_id = some (pos 4);
  chat_type = some private_chat;
  user_id = none;
  text = some "hi";
  callback_data = none;
  command = none;
}

abbrev pub fresh : MatchScratch
fresh = record { owner = none; text = none; callback = none }

fresh-Suits : Suits whole table fresh
fresh-Suits = record { text_suits = λ own. absurd (cc); callback_suits = λ own. absurd (cc) }

abbrev ap_out : Option (Routed whole) → Option (Option ℕ × List ℕ)
ap_out none = none
ap_out (some r) = some (r.matched, r.out)

hello_out : ap_out (route whole table 0 hello (λ _. 0) fresh) ≡ some (some 1, 1 ∷ 2 ∷ [])
unfolding route walked first_match prepare matches facts_match text_matches regex_matches
    command_matches any_from walk walk_node each push_new pick slice member
hello_out = refl

abbrev pub routed : Routed whole
routed = record {
  matched = some 1;
  out = 1 ∷ 2 ∷ [];
  cursors = λ j. if j == 4 then wrapping_add 0 1 else 0;
  scratch = record {
    owner = some 7;
    text = some (record { set = whole.matches_at ("hi" ∷ []) "hi"; done = true });
    callback = none;
  };
}

pub routed_is : route whole table 0 hello (λ node. 0) fresh ≡ some routed
unfolding route walked first_match prepare matches facts_match text_matches regex_matches
    command_matches any_from walk walk_node each push_new pick slice member
routed_is = refl

-- A regex of `whole` finds itself.
abbrev is_whole : String → String → Bool
is_whole pattern text = member text (pattern ∷ [])

whole_built :
    (patterns regexes : List String)
    → whole.build_regexes patterns ≡ some regexes
    → (patterns ≡ regexes) × (length patterns ≤ u32_max)
whole_built patterns regexes h = elim (Bool-cases (leb (length patterns) u32_max)) [
  | inl few ↦ (ground (arith, few, h), ground (arith, few))
  | inr many ↦ absurd (ground (arith, many, h))
]

whole-RegexSets : RegexSets whole is_whole
whole-RegexSets = record {
  found = λ patterns regexes h i pattern text at. ground (
    arith,
    at,
    (whole_built patterns regexes h).0,
    ap (λ ps. get_elem? ps i) (whole_built patterns regexes h).0,
  );
  few = λ patterns regexes h. (whole_built patterns regexes h).1;
}

compile-Answered_example :
    (r : Routed whole) × (route whole table 0 hello (λ _. 0) fresh ≡ some r)
    × Answered whole is_whole ((0, two_rules) ∷ []) [] 0 hello r.matched r.out
compile-Answered_example =
    compile-Answered whole is_whole whole-RegexSets 7 ((0, two_rules) ∷ []) [] table 0 hello
      (λ _. 0) fresh table_is (record { few_nodes = omega arith; few_children = omega arith })
      fresh-Suits

prepared-IsFirst_example :
    IsFirst whole
      (rule_matches whole table listed hello)
      listed.rules
      (first_match whole table listed hello 0 listed.rules (prepare whole table fresh)).0
prepared-IsFirst_example = prepared-IsFirst whole table listed hello fresh fresh-Suits

twice_is : compile whole 7 ((0, two_rules) ∷ (0, []) ∷ []) [] ≡ err (duplicate_source 0)
unfolding compile compile_each source_rules rule root optional_matcher text_matcher
    command_automaton first_invalid regex_matcher build command_names has_char type_bits set_source
    username_of combined target group grouped stored push split_schedule split_node
twice_is = refl

compile-Refused_example : Refused whole ((0, two_rules) ∷ (0, []) ∷ []) (duplicate_source 0)
compile-Refused_example =
    compile-Refused whole 7 ((0, two_rules) ∷ (0, []) ∷ []) [] (duplicate_source 0) twice_is

-- One table is known.
Only : RouteTable whole → Type 0
Only t = t ≡ table

Used-Suits_example : Suits whole table routed.scratch
unfolding Only
Used-Suits_example =
    Used-Suits whole Only (λ s t a b e. a ∙ sym b) routed.scratch
      (used table 0 hello (λ node. 0) unused refl routed_is) table refl
