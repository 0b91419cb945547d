-- ===== src/Segmentation/Shape.antt =====
-- The values of the rules that definitionSchemaFor lets through.
use atlas_erpbackend.Prelude.{
  ℕ, ◌+◌, ◌≡◌, ◌↔◌, refl, ap, ◌∙◌, Bool, true, false, not, Option, none, some, List, [], ◌∷◌, ◌++◌,
  map, All, arith,
}
use atlas_erpbackend.Segmentation.{
  Language, SegmentOperator, equals, not_equals, is_in, not_in, between, exists, AttributeKind,
  text_kind, number_kind, hash_kind, text_list_kind, Scalar, RuleValue, undefined, one, many,
  SegmentRule, SegmentDefinition, numeric_scalar,
}
use atlas_erpbackend.Segmentation.Schema.{
  Issue, Vocabulary, kind_of, is_number_kind, issue_if, are_bounds, operator_issues, rule_issues,
  issues_from, definition_issues,
}

module _ (L : Language) where
  -- The value that an operator asks for, and the kind of its attribute.
  abbrev pub IsShaped : Option AttributeKind → SegmentOperator → RuleValue L.Number → Type 0
  IsShaped kind exists value = value ≡ undefined
  IsShaped kind equals value = (s : Scalar L.Number) × (value ≡ one s)
  IsShaped kind not_equals value = (s : Scalar L.Number) × (value ≡ one s)
  IsShaped kind is_in value = (ss : List (Scalar L.Number)) × (value ≡ many ss)
  IsShaped kind not_in value = (ss : List (Scalar L.Number)) × (value ≡ many ss)
  IsShaped kind between value =
      (least : Scalar L.Number) × (most : Scalar L.Number) × (value ≡ many (least ∷ (most ∷ [])))
      × (L.is_finite (numeric_scalar L least) ≡ true)
      × (L.is_finite (numeric_scalar L most) ≡ true)
      × (kind ≡ some number_kind)

  both_tests :
      (b c : Bool) (i j : Issue)
      → issue_if (not b) i ++ issue_if (not c) j ≡ []
      → (b ≡ true) × (c ≡ true)
  both_tests true true i j h = (refl, refl)
  both_tests true false i j h = cc
  both_tests false c i j h = cc

  number_kind_only :
      (kind : Option AttributeKind) → is_number_kind kind ≡ true → kind ≡ some number_kind
  number_kind_only none h = cc
  number_kind_only (some number_kind) h = refl
  number_kind_only (some text_kind) h = cc
  number_kind_only (some hash_kind) h = cc
  number_kind_only (some text_list_kind) h = cc

  two_bounds :
      (kind : Option AttributeKind) (ss : List (Scalar L.Number))
      → are_bounds L ss ≡ true
      → kind ≡ some number_kind
      → IsShaped kind between (many ss)
  two_bounds kind [] h k = cc
  two_bounds kind (a ∷ []) h k = cc
  two_bounds kind (a ∷ (b ∷ [])) h k = (a, b, refl, ground arith, ground arith, k)
  two_bounds kind (a ∷ (b ∷ (c ∷ ss))) h k = cc

  shaped :
      (kind : Option AttributeKind) (operator : SegmentOperator) (value : RuleValue L.Number)
      → operator_issues L kind operator value ≡ []
      → IsShaped kind operator value
  shaped kind exists undefined h = refl
  shaped kind exists (one s) h = cc
  shaped kind exists (many ss) h = cc
  shaped kind equals undefined h = cc
  shaped kind equals (one s) h = (s, refl)
  shaped kind equals (many ss) h = cc
  shaped kind not_equals undefined h = cc
  shaped kind not_equals (one s) h = (s, refl)
  shaped kind not_equals (many ss) h = cc
  shaped kind is_in undefined h = cc
  shaped kind is_in (one s) h = cc
  shaped kind is_in (many ss) h = (ss, refl)
  shaped kind not_in undefined h = cc
  shaped kind not_in (one s) h = cc
  shaped kind not_in (many ss) h = (ss, refl)
  shaped kind between undefined h = cc
  shaped kind between (one s) h = cc
  shaped kind between (many ss) h =
      let (bounds, numeric) = both_tests (are_bounds L ss) (is_number_kind kind) _ _ h in
      two_bounds kind ss bounds (number_kind_only kind numeric)

  without_issues :
      (kind : Option AttributeKind) (operator : SegmentOperator) (value : RuleValue L.Number)
      → IsShaped kind operator value
      → operator_issues L kind operator value ≡ []
  without_issues kind exists value h = ap (operator_issues L kind exists) h
  without_issues kind equals value (s, h) = ap (operator_issues L kind equals) h
  without_issues kind not_equals value (s, h) = ap (operator_issues L kind not_equals) h
  without_issues kind is_in value (ss, h) = ap (operator_issues L kind is_in) h
  without_issues kind not_in value (ss, h) = ap (operator_issues L kind not_in) h
  without_issues kind between value (a, b, h, f, g, k) =
      ap (operator_issues L kind between) h
      ∙ ap (λ x. operator_issues L x between (many (a ∷ (b ∷ [])))) k
      ∙ rw (f, g) refl

  -- Each rule of a definition, with the kind of its attribute in a vocabulary.
  abbrev pub AreShaped : Vocabulary → List (SegmentRule L.Number) → Type 0
  AreShaped attributes rules =
      All (λ rule. IsShaped (kind_of attributes rule.attribute) rule.operator rule.value) rules

  issues_from-AreShaped :
      (attributes : Vocabulary) (index : ℕ) (rules : List (SegmentRule L.Number))
      → issues_from L (rule_issues L attributes) index rules ≡ []
      → AreShaped attributes rules
  unfolding rule_issues
  issues_from-AreShaped attributes index [] h = tt
  issues_from-AreShaped attributes index (rule ∷ rules) h =
      let (first, rest) =
        both_empty index (rule_issues L attributes rule)
          (issues_from L (rule_issues L attributes) (index + 1) rules) h in
      (
        shaped (kind_of attributes rule.attribute) rule.operator rule.value first,
        issues_from-AreShaped attributes (index + 1) rules rest,
      )
    where
      both_empty :
          (index : ℕ) (xs : List Issue) (ys : List (ℕ × Issue))
          → map (λ issue. (index, issue)) xs ++ ys ≡ []
          → (xs ≡ []) × (ys ≡ [])
      both_empty index [] ys h = (refl, h)
      both_empty index (x ∷ xs) ys h = cc

  AreShaped-issues_from :
      (attributes : Vocabulary) (index : ℕ) (rules : List (SegmentRule L.Number))
      → AreShaped attributes rules
      → issues_from L (rule_issues L attributes) index rules ≡ []
  unfolding rule_issues
  AreShaped-issues_from attributes index [] h = refl
  AreShaped-issues_from attributes index (rule ∷ rules) (first, rest) =
      let none_here =
        without_issues (kind_of attributes rule.attribute) rule.operator rule.value first in
      ap
        (λ issues.
          map (λ issue. (index, issue)) issues
          ++ issues_from L (rule_issues L attributes) (index + 1) rules)
        none_here
      ∙ AreShaped-issues_from attributes (index + 1) rules rest

  -- The checks find no issue exactly where each rule has the value that its operator asks for: none for
  -- EXISTS, one for EQUALS and NOT_EQUALS, a list for IN and NOT_IN, and for BETWEEN a list of just two
  -- finite bounds on an attribute that the vocabulary has as a number.
  pub definition_issues-AreShaped :
      (attributes : Vocabulary) (definition : SegmentDefinition L.Number)
      → (definition_issues L attributes definition ≡ []) ↔ AreShaped attributes definition.rules
  unfolding definition_issues
  definition_issues-AreShaped attributes definition = (
    issues_from-AreShaped attributes 0 definition.rules,
    AreShaped-issues_from attributes 0 definition.rules,
  )
