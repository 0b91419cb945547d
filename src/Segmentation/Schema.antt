-- ===== src/Segmentation/Schema.antt =====
-- The checks of a definition at the border: the `superRefine` of definitionSchemaFor and
-- checkAttributesAllowed, of src/common/segmentation/rule-schema.ts, past the shape that the schema library
-- checks. The issues are collected with the place of their rule.
use atlas_erpbackend.Prelude.{
  ℕ, ◌+◌, Bool, true, false, not, ◌&&◌, Option, none, some, List, [], ◌∷◌, ◌++◌, map, any,
  if◌then◌else◌,
}
use atlas_erpbackend.Text.{Text, text_eq}
use atlas_erpbackend.Segmentation.{
  Language, SegmentOperator, equals, not_equals, is_in, not_in, between, exists, AttributeKind,
  number_kind, Scalar, RuleValue, undefined, one, many, SegmentRule, SegmentDefinition,
  numeric_scalar,
}

pub data Issue : Type 0 where
  exists_takes_no_value value_required list_required two_bounds_required numeric_only : Issue
  single_value_required attribute_not_allowed : Issue

abbrev pub Vocabulary : Type 0
Vocabulary = List (Text × AttributeKind)

abbrev pub kind_of : Vocabulary → Text → Option AttributeKind
kind_of [] attribute = none
kind_of ((name, kind) ∷ attributes) attribute =
    if text_eq name attribute then some kind else kind_of attributes attribute

abbrev pub is_number_kind : Option AttributeKind → Bool
is_number_kind (some number_kind) = true
is_number_kind _ = false

abbrev pub issue_if : Bool → Issue → List Issue
issue_if b issue = if b then issue ∷ [] else []

module _ (L : Language) where
  abbrev pub are_bounds : List (Scalar L.Number) → Bool
  are_bounds (least ∷ (most ∷ [])) =
      L.is_finite (numeric_scalar L least) && L.is_finite (numeric_scalar L most)
  are_bounds _ = false

  abbrev pub has_bounds : RuleValue L.Number → Bool
  has_bounds (many bounds) = are_bounds bounds
  has_bounds _ = false

  abbrev pub is_list : RuleValue L.Number → Bool
  is_list (many values) = true
  is_list _ = false

  -- The checks of an operator on a value that is given.
  abbrev pub value_issues : Option AttributeKind → SegmentOperator → RuleValue L.Number → List Issue
  value_issues kind is_in value = issue_if (not (is_list value)) list_required
  value_issues kind not_in value = issue_if (not (is_list value)) list_required
  value_issues kind between value =
      issue_if (not (has_bounds value)) two_bounds_required
      ++ issue_if (not (is_number_kind kind)) numeric_only
  value_issues kind equals value = issue_if (is_list value) single_value_required
  value_issues kind not_equals value = issue_if (is_list value) single_value_required
  value_issues kind exists value = []

  abbrev pub given_issues : Option AttributeKind → SegmentOperator → RuleValue L.Number → List Issue
  given_issues kind operator undefined = value_required ∷ []
  given_issues kind operator (one s) = value_issues kind operator (one s)
  given_issues kind operator (many ss) = value_issues kind operator (many ss)

  abbrev pub exists_issues : RuleValue L.Number → List Issue
  exists_issues undefined = []
  exists_issues (one s) = exists_takes_no_value ∷ []
  exists_issues (many ss) = exists_takes_no_value ∷ []

  abbrev pub operator_issues :
      Option AttributeKind → SegmentOperator → RuleValue L.Number → List Issue
  operator_issues kind exists value = exists_issues value
  operator_issues kind equals value = given_issues kind equals value
  operator_issues kind not_equals value = given_issues kind not_equals value
  operator_issues kind is_in value = given_issues kind is_in value
  operator_issues kind not_in value = given_issues kind not_in value
  operator_issues kind between value = given_issues kind between value

  unfoldable pub rule_issues : Vocabulary → SegmentRule L.Number → List Issue
  rule_issues attributes rule =
      operator_issues (kind_of attributes rule.attribute) rule.operator rule.value

  abbrev pub issues_from :
      (SegmentRule L.Number → List Issue) → ℕ → List (SegmentRule L.Number) → List (ℕ × Issue)
  issues_from check index [] = []
  issues_from check index (rule ∷ rules) =
      map (λ issue. (index, issue)) (check rule) ++ issues_from check (index + 1) rules

  unfoldable pub definition_issues : Vocabulary → SegmentDefinition L.Number → List (ℕ × Issue)
  definition_issues attributes definition = issues_from (rule_issues attributes) 0 definition.rules

  unfoldable pub check_attributes_allowed :
      SegmentDefinition L.Number → List Text → List (ℕ × Issue)
  check_attributes_allowed definition allowed =
      issues_from
        (λ rule. issue_if (not (any (λ a. text_eq a rule.attribute) allowed)) attribute_not_allowed)
        0 definition.rules
