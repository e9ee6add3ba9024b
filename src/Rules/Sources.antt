-- ===== src/Rules/Sources.antt =====
-- The rules that `RouteTable::compile` of crates/tgin-core/src/rules/compile.rs keeps for each source.
use tgin.Prelude.{
  ℕ, zero, suc, ◌≡◌, refl, sym, subst, ◌∙◌, true, Option, none, some, List, [], ◌∷◌, String,
  is_some, ◌==◌, ==_iff, if◌then◌else◌, arith, Bool-cases, inl, inr, ◌⊎◌, ok, ok-bind, ok-cancel,
  ◌>>=◌,
}
use tgin.Core.{SourceId, option_map}
use tgin.Rules.Spec.{RuleSpec}
use tgin.Rules.Table.{Matchers, Builder, CompiledRule, SourceRules}
use tgin.Rules.Compile.{
  source_rules, Sources, set_source, source_at, username_of, compile_each, without_first,
}
use tgin.Rules.Written.{IsNameOf}

module _ (m : Matchers) where
  abbrev pub Listed : SourceId → List RuleSpec → List (SourceId × List RuleSpec) → Type 0
  Listed source specs [] = ⊥
  Listed source specs ((id, listed) ∷ rules) =
      ((id ≡ source) × (listed ≡ specs)) ⊎ Listed source specs rules

  pub get-set_source :
      (j k : ℕ) (v : SourceRules m) (sources : Sources m)
      → source_at m j (set_source m k v sources)
        ≡ (if j == k then some v else source_at m j sources)
  unfolding set_source
  get-set_source zero zero v [] = refl
  get-set_source (suc j) zero v [] = ground arith
  get-set_source zero zero v (x ∷ sources) = refl
  get-set_source (suc j) zero v (x ∷ sources) = ground arith
  get-set_source zero (suc k) v [] = ground arith
  get-set_source (suc j) (suc k) v [] = let h = get-set_source j k v [] in ground (arith, h)
  get-set_source zero (suc k) v (x ∷ sources) = ground arith
  get-set_source (suc j) (suc k) v (x ∷ sources) =
      let h = get-set_source j k v sources in ground (arith, h)

  -- Every source that is listed has rules in the table.
  set_source-kept :
      (j k : ℕ) (v : SourceRules m) (sources : Sources m)
      → is_some (source_at m j sources) ≡ true
      → is_some (source_at m j (set_source m k v sources)) ≡ true
  set_source-kept j k v sources h = ground (arith, h, get-set_source j k v sources)

  pub compile_each-step :
      (id : SourceId) (specs : List RuleSpec) (rules : List (SourceId × List RuleSpec))
      (usernames : List (SourceId × Option String)) (b : Builder) (sources : Sources m)
      (r : Builder × Sources m)
      → compile_each m ((id, specs) ∷ rules) usernames b sources ≡ ok r
      → (x : Builder × List (CompiledRule m)) × (source_rules m id 0 specs b ≡ ok x)
        × (compile_each m rules usernames x.0 (
              set_source m id
                (record { rules = x.1; username = username_of m id usernames })
                sources)
            ≡ ok r)
  unfolding compile_each
  compile_each-step id specs rules usernames b sources r h =
      elim (Bool-cases (is_some (source_at m id sources))) [
        | inl taken ↦ absurd (ground (arith, h, taken))
        | inr free ↦
            let good : compile_each m ((id, specs) ∷ rules) usernames b sources ≡ (
                source_rules m id 0 specs b >>= λ w. compile_each m rules usernames w.0 (
                  set_source m id (record { rules = w.1; username = username_of m id usernames })
                    sources)) =
              rw (free, compile_each) refl in
            ok-bind (source_rules m id 0 specs b) _ r (sym good ∙ h)
      ]

  compile_each-kept :
      (rules : List (SourceId × List RuleSpec)) (usernames : List (SourceId × Option String))
      (b : Builder) (sources : Sources m) (r : Builder × Sources m) (source : SourceId)
      → compile_each m rules usernames b sources ≡ ok r
      → is_some (source_at m source sources) ≡ true
      → is_some (source_at m source r.1) ≡ true
  unfolding compile_each
  compile_each-kept [] usernames b sources r source h k =
      subst (λ (z : Builder × Sources m). is_some (source_at m source z.1) ≡ true)
        (ok-cancel refl h) k
  compile_each-kept ((id, specs) ∷ rules) usernames b sources r source h k =
      let (x, e, f) = compile_each-step id specs rules usernames b sources r h in
      compile_each-kept rules usernames x.0 _ r source f (set_source-kept source id _ sources k)

  pub compile_each-Listed :
      (rules : List (SourceId × List RuleSpec)) (usernames : List (SourceId × Option String))
      (b : Builder) (sources : Sources m) (r : Builder × Sources m) (source : SourceId)
      (specs : List RuleSpec)
      → compile_each m rules usernames b sources ≡ ok r
      → Listed source specs rules
      → is_some (source_at m source r.1) ≡ true
  compile_each-Listed [] usernames b sources r source specs h l = absurd l
  compile_each-Listed ((id, mine) ∷ rules) usernames b sources r source specs h (inl (is, same)) =
      let (x, e, f) = compile_each-step id mine rules usernames b sources r h in
      let added : SourceRules m = record { rules = x.1; username = username_of m id usernames } in
      compile_each-kept rules usernames x.0 _ r source f
        (ground (arith, is, get-set_source source id added sources))
  compile_each-Listed ((id, mine) ∷ rules) usernames b sources r source specs h (inr l) =
      let (x, e, f) = compile_each-step id mine rules usernames b sources r h in
      compile_each-Listed rules usernames x.0 _ r source specs f l

  pub username_of-IsNameOf :
      (source : SourceId) (names : List (SourceId × Option String))
      → IsNameOf source names (username_of m source names)
  unfolding username_of
  username_of-IsNameOf source [] = refl
  username_of-IsNameOf source ((id, name) ∷ names) = elim (Bool-cases (id == source)) [
    | inl same ↦ rw (same, username_of) (inl ((==_iff id source).0 same, without_at name))
    | inr other ↦
        rw (other, username_of)
          (inr (λ is. ground (arith, is, other), username_of-IsNameOf source names))
  ]
    where
      without_at :
          (name : Option String)
          → elim name [ none ↦ none | some u ↦ some (without_first b'@' u) ]
            ≡ option_map (without_first b'@') name
      without_at none = refl
      without_at (some u) = refl
