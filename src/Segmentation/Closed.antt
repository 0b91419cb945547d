-- ===== src/Segmentation/Closed.antt =====
-- matchesDefinition on facts of which some are missing.
use atlas_erpbackend.Prelude.{
  ◌≡◌, refl, sym, ap, ◌∙◌, Bool, true, false, Option, none, some, List, [], ◌∷◌, map, any, all,
  arith, if◌then◌else◌, Bool-cases, inl, inr,
}
use atlas_erpbackend.Text.{Text, text_eq, text_eq_sound}
use atlas_erpbackend.Segmentation.{
  Language, SegmentRule, Match, match_all, match_any, SegmentDefinition, FactValue, FactContext,
  fact_of, evaluate_fact, evaluate_rule, combine, is_empty, matches_definition,
}

-- The facts without those of some attributes.
abbrev pub forget : {N : Type 0} → (Text → Bool) → FactContext N → FactContext N
forget lost [] = []
forget lost ((name, value) ∷ facts) =
    if lost name then forget lost facts else (name, value) ∷ forget lost facts

module _ (L : Language) (lost : Text → Bool) where
  fact_of-forget :
      (a : Text) (facts : FactContext L.Number)
      → fact_of L a (forget lost facts) ≡ (if lost a then none else fact_of L a facts)
  fact_of-forget a [] = by_lost (lost a)
    where
      by_lost : (b : Bool) → ◌≡◌ {A = Option (FactValue L.Number)} none (if b then none else none)
      by_lost true = refl
      by_lost false = refl
  fact_of-forget a ((name, value) ∷ facts) =
      let rest = fact_of-forget a facts in
      elim (Bool-cases (lost name)) [
        | inl gone ↦ elim (Bool-cases (text_eq name a)) [
          | inl same ↦
              let lost_a : lost a ≡ true = ap lost (sym (text_eq_sound name a same)) ∙ gone in
              rw (gone, lost_a) (rw lost_a at rest)
          | inr other ↦ rw (gone, other) rest
        ]
        | inr kept ↦ elim (Bool-cases (text_eq name a)) [
          | inl same ↦
              let lost_a : lost a ≡ false = ap lost (sym (text_eq_sound name a same)) ∙ kept in
              rw (kept, same, lost_a) refl
          | inr other ↦ rw (kept, other) rest
        ]
      ]

  evaluate_rule-forget :
      (rule : SegmentRule L.Number) (facts : FactContext L.Number)
      → evaluate_rule L rule (forget lost facts) ≡ true
      → evaluate_rule L rule facts ≡ true
  unfolding evaluate_rule
  evaluate_rule-forget rule facts h = by_lost (lost rule.attribute) (
      sym (ap (evaluate_fact L rule.operator rule.value) (fact_of-forget rule.attribute facts)) ∙ h)
    where
      by_lost :
          (b : Bool)
          → evaluate_fact L rule.operator rule.value
              (if b then none else fact_of L rule.attribute facts)
            ≡ true
          → evaluate_fact L rule.operator rule.value (fact_of L rule.attribute facts) ≡ true
      by_lost true h = cc
      by_lost false h = h

  all_mono :
      (facts : FactContext L.Number) (rules : List (SegmentRule L.Number))
      → all (λ b. b) (map (λ rule. evaluate_rule L rule (forget lost facts)) rules) ≡ true
      → all (λ b. b) (map (λ rule. evaluate_rule L rule facts) rules) ≡ true
  all_mono facts [] h = refl
  all_mono facts (rule ∷ rules) h =
      ground (arith, evaluate_rule-forget rule facts, all_mono facts rules)

  any_mono :
      (facts : FactContext L.Number) (rules : List (SegmentRule L.Number))
      → any (λ b. b) (map (λ rule. evaluate_rule L rule (forget lost facts)) rules) ≡ true
      → any (λ b. b) (map (λ rule. evaluate_rule L rule facts) rules) ≡ true
  any_mono facts [] h = h
  any_mono facts (rule ∷ rules) h =
      ground (arith, evaluate_rule-forget rule facts, any_mono facts rules)

  -- A subject that falls in a definition when the facts of some attributes are missing falls in it with
  -- them too, whatever the operators of the rules, their negations among them, and whether all rules or any
  -- must hold: a fact that is lost never takes anyone in.
  pub matches_definition-forget :
      (definition : Option (SegmentDefinition L.Number)) (facts : FactContext L.Number)
      → matches_definition L definition (some (forget lost facts)) ≡ true
      → matches_definition L definition (some facts) ≡ true
  unfolding matches_definition
  matches_definition-forget none facts h = refl
  matches_definition-forget (some definition) facts h = by_match definition.match definition.rules h
    where
      results : List (SegmentRule L.Number) → FactContext L.Number → List Bool
      results rules known = map (λ rule. evaluate_rule L rule known) rules

      by_match :
          (m : Match) (rules : List (SegmentRule L.Number))
          → (if is_empty L rules then true else combine L m (results rules (forget lost facts)))
            ≡ true
          → (if is_empty L rules then true else combine L m (results rules facts)) ≡ true
      by_match m [] h = refl
      by_match match_all (rule ∷ rules) h = all_mono facts (rule ∷ rules) h
      by_match match_any (rule ∷ rules) h = any_mono facts (rule ∷ rules) h
