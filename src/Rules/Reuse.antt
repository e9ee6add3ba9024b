-- ===== src/Rules/Reuse.antt =====
-- A scratch that is used for many updates and tables, of crates/tgin-core/src/rules/eval.rs.
use tgin.Prelude.{
  ℕ, suc, ◌≡◌, refl, sym, ap, subst, ◌∙◌, Bool, true, false, Option, none, some, List, [], ◌∷◌,
  String, is_some, length, get_elem?, ==_iff, arith, Bool-cases, Option-cases, some-cancel, inl,
  inr,
}
use tgin.Core.{SourceId, Facts, ordering_key}
use tgin.Rules.Table.{Matchers, CompiledRule, SourceRules, RouteTable}
use tgin.Rules.Compile.{source_at}
use tgin.Rules.Walk.{walk}
use tgin.Rules.Route.{
  RegexScratch, MatchScratch, is_owner, prepare, none_or_matches, facts_match, matches, first_match,
  Routed, walked, route,
}
use tgin.Rules.Scratch.{
  Cached, nothing, kept, Valid, Suits, in_turn, matches-in_turn, matches-plain, prepare-Valid,
}

module _ (m : Matchers) where
  Cached-is_some :
      {text : Option String} {regexes : Option m.Regexes} {s : Option RegexScratch}
      → Cached m text regexes s
      → is_some s ≡ is_some regexes
  Cached-is_some nothing = refl
  Cached-is_some (kept h) = refl

  in_turn-owner :
      (facts_ok : Bool) (scratch : MatchScratch) (text callback : Bool × Option RegexScratch)
      → (in_turn m facts_ok scratch text callback).1.owner ≡ scratch.owner
  in_turn-owner false scratch text callback = refl
  in_turn-owner true scratch (false, text) callback = refl
  in_turn-owner true scratch (true, text) callback = refl

  matches-owner :
      (table : RouteTable m) (source : SourceRules m) (rule : CompiledRule m) (facts : Facts)
      (scratch : MatchScratch)
      → (matches m table source rule facts scratch).1.owner ≡ scratch.owner
  matches-owner table source rule facts scratch =
      ap (λ r. r.1.owner) (matches-in_turn m table source rule facts scratch)
      ∙ in_turn-owner (facts_match m source rule facts) scratch
          (none_or_matches m rule.text facts.text table.text_regex scratch.text)
          (none_or_matches m rule.callback_data facts.callback_data table.callback_regex
            scratch.callback)

  first_match-Valid :
      (table : RouteTable m) (source : SourceRules m) (facts : Facts) (n : ℕ)
      (rules : List (CompiledRule m)) (scratch : MatchScratch)
      → Valid m table facts scratch
      → Valid m table facts (first_match m table source facts n rules scratch).1
        × ((first_match m table source facts n rules scratch).1.owner ≡ scratch.owner)
  unfolding first_match
  first_match-Valid table source facts n [] scratch v = (v, refl)
  first_match-Valid table source facts n (rule ∷ rules) scratch v =
      let (same, valid) = matches-plain m table source rule facts scratch v in
      let after = (matches m table source rule facts scratch).1 in
      let owner = matches-owner table source rule facts scratch in
      elim (Bool-cases (matches m table source rule facts scratch).0) [
        | inl found ↦ rw (found, first_match) (valid, owner)
        | inr other ↦
            let (later, keeps) = first_match-Valid table source facts (suc n) rules after valid in
            rw (other, first_match) (later, keeps ∙ owner)
      ]

  prepare-owner :
      (table : RouteTable m) (scratch : MatchScratch)
      → (prepare m table scratch).owner ≡ some table.token
  unfolding prepare
  prepare-owner table scratch = elim (Bool-cases (is_owner table.token scratch.owner)) [
    | inl own ↦ rw (own, prepare) (is_owner-some scratch.owner own)
    | inr foreign ↦ rw (foreign, prepare) refl
  ]
    where
      is_owner-some : (o : Option ℕ) → is_owner table.token o ≡ true → o ≡ some table.token
      is_owner-some none h = absurd (cc h)
      is_owner-some (some k) h = ap some ((==_iff k table.token).0 h)

  module _ (Known : RouteTable m → Type 0)
      (by_token : (s t : RouteTable m) → Known s → Known t → s.token ≡ t.token → s ≡ t) where
    -- What a scratch went through: it was new, and then routed updates by tables that are known.
    pub data Used : MatchScratch → Type 0 where
      unused : Used (record { owner = none; text = none; callback = none })
      used :
          {scratch : MatchScratch} {r : Routed m} (table : RouteTable m) (source : SourceId)
          (facts : Facts) (cursors : ℕ → ℕ)
          → Used scratch
          → Known table
          → route m table source facts cursors scratch ≡ some r
          → Used r.scratch

    SuitsKnown : MatchScratch → Type 0
    SuitsKnown scratch = (t : RouteTable m) → Known t → Suits m t scratch

    matched-SuitsKnown :
        (table : RouteTable m) (source : SourceRules m) (facts : Facts) (scratch : MatchScratch)
        → Known table
        → Suits m table scratch
        → SuitsKnown (first_match m table source facts 0 source.rules (prepare m table scratch)).1
    unfolding SuitsKnown
    matched-SuitsKnown table source facts scratch known suits t also =
        let (valid, keeps) =
          first_match-Valid table source facts 0 source.rules (prepare m table scratch)
            (prepare-Valid m table facts scratch suits) in
        let last = (first_match m table source facts 0 source.rules (prepare m table scratch)).1 in
        let owner : last.owner ≡ some table.token = keeps ∙ prepare-owner table scratch in
        let same : is_owner t.token last.owner ≡ true → table ≡ t = λ h.
          by_token table t known also
            ((==_iff table.token t.token).0 (sym (ap (is_owner t.token) owner) ∙ h)) in
        record {
          text_suits = λ h.
              Cached-is_some valid.text_cached
              ∙ ap (λ (u : RouteTable m). is_some u.text_regex) (same h);
          callback_suits = λ h.
              Cached-is_some valid.callback_cached
              ∙ ap (λ (u : RouteTable m). is_some u.callback_regex) (same h);
        }

    walked-scratch :
        (table : RouteTable m) (source : SourceRules m) (facts : Facts) (cursors : ℕ → ℕ)
        (match : Option ℕ × MatchScratch) (r : Routed m)
        → walked m table source facts cursors match ≡ some r
        → match.1 ≡ r.scratch
    unfolding walked
    walked-scratch table source facts cursors (none, scratch) r h =
        ap (λ (x : Routed m). x.scratch) (some-cancel refl h)
    walked-scratch table source facts cursors (some n, scratch) r h =
        elim (Option-cases (get_elem? source.rules n)) [
          | inl gone ↦ absurd (ground (arith, h, gone))
          | inr (rule, at) ↦
              elim (Option-cases (
                walk table.nodes table.children (length table.nodes) rule.root (ordering_key facts)
                  (record { cursors = cursors; out = [] }))) [
                    | inl stuck ↦ absurd (ground (arith, h, at, stuck))
                    | inr (w, ends) ↦
                        let routed : walked m table source facts cursors (some n, scratch)
                            ≡ some (record {
                              matched = some n;
                              out = w.out;
                              cursors = w.cursors;
                              scratch = scratch;
                            }) =
                          rw (at, ends, walked) refl in
                        ap (λ (x : Routed m). x.scratch) (some-cancel routed h)
                  ]
        ]

    -- Among tables that are known and that differ in their tokens: a scratch that was new and
    -- then routed any updates by any of them, in any order, has room for the regexes of each of
    -- them whenever it was prepared for it.
    pub Used-Suits :
        (scratch : MatchScratch)
        → Used scratch
        → (table : RouteTable m) → Known table
        → Suits m table scratch
    unfolding SuitsKnown route
    Used-Suits _ unused table known = record {
      text_suits = λ h. absurd (cc h);
      callback_suits = λ h. absurd (cc h);
    }
    Used-Suits _ (used {scratch} {r} table source facts cursors before known h) t also =
        elim (Option-cases (source_at m source table.sources)) [
          | inl nowhere ↦
              let same : route m table source facts cursors scratch
                  ≡ some
                      (record { matched = none; out = []; cursors = cursors; scratch = scratch }) =
                rw (nowhere, route) refl in
              subst (Suits m t) (ap (λ (x : Routed m). x.scratch) (some-cancel same h))
                (Used-Suits scratch before t also)
          | inr (rules, at) ↦
              let match = first_match m table rules facts 0 rules.rules (prepare m table scratch) in
              let same : route m table source facts cursors scratch
                  ≡ walked m table rules facts cursors match =
                rw (at, route) refl in
              subst (Suits m t) (walked-scratch table rules facts cursors match r (sym same ∙ h)) (
                matched-SuitsKnown table rules facts scratch known
                  (Used-Suits scratch before table known) t also)
        ]
