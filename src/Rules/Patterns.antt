-- ===== src/Rules/Patterns.antt =====
-- The regexes that `Builder::text_matcher` of crates/tgin-core/src/rules/compile.rs adds.
use tgin.Prelude.{
  ℕ, zero, suc, ◌+◌, ◌≡◌, refl, sym, ap, ◌∙◌, Option, none, some, List, [], ◌∷◌, ◌++◌, String,
  length, get_elem?, arith, Option-cases, inl, inr, ok,
}
use tgin.Rules.Table.{Matchers, Builder}
use tgin.Rules.Compile.{Field, text_field, callback_field, combined, with_patterns, patterns_of}
use tgin.Rules.Shape.{append-nil, append_assoc}

-- A later builder has the patterns of this one, and more behind them.
pub record Later (b c : Builder) : Type 0 where
  pub more_text : List String
  pub more_callback : List String
  pub text_are : c.text_patterns ≡ b.text_patterns ++ more_text
  pub callback_are : c.callback_patterns ≡ b.callback_patterns ++ more_callback

pub SamePatterns-Later :
    (b c : Builder)
    → c.text_patterns ≡ b.text_patterns
    → c.callback_patterns ≡ b.callback_patterns
    → Later b c
SamePatterns-Later b c t k = record {
  more_text = [];
  more_callback = [];
  text_are = t ∙ sym (append-nil b.text_patterns);
  callback_are = k ∙ sym (append-nil b.callback_patterns);
}

pub Later-refl : (b : Builder) → Later b b
Later-refl b = SamePatterns-Later b b refl refl

pub Later-trans : {b c d : Builder} → Later b c → Later c d → Later b d
Later-trans {b} {c} {d} g h = record {
  more_text = g.more_text ++ h.more_text;
  more_callback = g.more_callback ++ h.more_callback;
  text_are = rw (h.text_are, g.text_are) (append_assoc b.text_patterns g.more_text h.more_text);
  callback_are =
      rw (h.callback_are, g.callback_are)
        (append_assoc b.callback_patterns g.more_callback h.more_callback);
}

pub with_patterns-Later :
    (field : Field) (list : List String) (b : Builder)
    → Later b (with_patterns field (patterns_of field b ++ list) b)
with_patterns-Later text_field list b = record {
  more_text = list;
  more_callback = [];
  text_are = refl;
  callback_are = sym (append-nil b.callback_patterns);
}
with_patterns-Later callback_field list b = record {
  more_text = [];
  more_callback = list;
  text_are = sym (append-nil b.text_patterns);
  callback_are = refl;
}

get_elem?-front :
    (list rest : List String) (i : ℕ) (p : String)
    → get_elem? list i ≡ some p
    → get_elem? (list ++ rest) i ≡ some p
get_elem?-front [] rest i p h = absurd (cc)
get_elem?-front (x ∷ list) rest zero p h = h
get_elem?-front (x ∷ list) rest (suc i) p h = get_elem?-front list rest i p h

pub get_elem?-middle :
    (pre list rest : List String) (i : ℕ) (p : String)
    → get_elem? list i ≡ some p
    → get_elem? ((pre ++ list) ++ rest) (length pre + i) ≡ some p
get_elem?-middle [] list rest i p h =
    let at : 0 + i ≡ i = omega arith in
    ap (get_elem? (list ++ rest)) at ∙ get_elem?-front list rest i p h
get_elem?-middle (x ∷ pre) list rest i p h =
    let at : suc (length pre) + i ≡ suc (length pre + i) = omega arith in
    ap (get_elem? (x ∷ ((pre ++ list) ++ rest))) at ∙ get_elem?-middle pre list rest i p h

module _ (m : Matchers) where
  -- The regexes of a table are compiled from the patterns of a builder and later ones.
  abbrev pub Serves : Field → Builder → Option m.Regexes → Type 0
  Serves field b regexes =
      (rest : List String) × (combined m (patterns_of field b ++ rest) ≡ ok regexes)

  pub Serves-back :
      (field : Field) {b c : Builder} (regexes : Option m.Regexes)
      → Later b c
      → Serves field c regexes
      → Serves field b regexes
  Serves-back text_field {b} {c} regexes l (rest, h) = (
    l.more_text ++ rest,
    ap (combined m) (
          sym (append_assoc b.text_patterns l.more_text rest)
          ∙ ap (λ ps. ps ++ rest) (sym l.text_are))
        ∙ h,
  )
  Serves-back callback_field {b} {c} regexes l (rest, h) = (
    l.more_callback ++ rest,
    ap (combined m) (
          sym (append_assoc b.callback_patterns l.more_callback rest)
          ∙ ap (λ ps. ps ++ rest) (sym l.callback_are))
        ∙ h,
  )

  -- A set of regexes that is not empty is built.
  pub combined-built :
      (pre : List String) (x : String) (list rest : List String) (regexes : Option m.Regexes)
      → combined m ((pre ++ x ∷ list) ++ rest) ≡ ok regexes
      → (found : m.Regexes) × (regexes ≡ some found)
        × (m.build_regexes ((pre ++ x ∷ list) ++ rest) ≡ some found)
  unfolding combined
  combined-built pre x list rest regexes h =
      elim (Option-cases (m.build_regexes ((pre ++ x ∷ list) ++ rest))) [
        | inl failed ↦ absurd (bad pre failed h)
        | inr (found, built) ↦ (found, good pre found built h, built)
      ]
    where
      bad :
          (pre : List String)
          → m.build_regexes ((pre ++ x ∷ list) ++ rest) ≡ none
          → combined m ((pre ++ x ∷ list) ++ rest) ≡ ok regexes
          → ⊥
      bad [] failed h = absurd (ground (arith, failed, h))
      bad (y ∷ pre) failed h = absurd (ground (arith, failed, h))

      good :
          (pre : List String) (found : m.Regexes)
          → m.build_regexes ((pre ++ x ∷ list) ++ rest) ≡ some found
          → combined m ((pre ++ x ∷ list) ++ rest) ≡ ok regexes
          → regexes ≡ some found
      good [] found built h = ground (arith, built, h)
      good (y ∷ pre) found built h = ground (arith, built, h)
