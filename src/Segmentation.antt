-- ===== src/Segmentation.antt =====
-- The rules of a segment: src/common/segmentation/rule-engine.ts and rule-schema.ts. The conversions between
-- texts and numbers and the lower case of a text are the language's, and a parameter.
pub mod Schema
pub mod Closed
pub mod Shape
use atlas_erpbackend.Prelude.{
  ℕ, zero, suc, Bool, true, false, not, ◌&&◌, ◌||◌, Option, none, some, List, [], ◌∷◌, ◌++◌, any,
  all, map, ◌==◌, if◌then◌else◌, length,
}
use atlas_erpbackend.Text.{Text, codes, text_eq, trim}

pub record Language : Type 1 where
  pub Number : Type 0
  -- `Number(text)` and `String(number)`.
  pub number_of : Text → Number
  pub print_number : Number → Text
  -- `===`, `<=` and `Number.isFinite`.
  pub same : Number → Number → Bool
  pub at_most : Number → Number → Bool
  pub is_finite : Number → Bool
  pub to_lower_case : Text → Text

pub data SegmentOperator : Type 0 where
  equals not_equals is_in not_in between exists : SegmentOperator

pub data AttributeKind : Type 0 where
  text_kind number_kind hash_kind text_list_kind : AttributeKind

pub data Scalar (N : Type 0) : Type 0 where
  text : Text → Scalar N
  number : N → Scalar N

-- The value of a rule: not given, one, or a list.
pub data RuleValue (N : Type 0) : Type 0 where
  undefined : RuleValue N
  one : Scalar N → RuleValue N
  many : List (Scalar N) → RuleValue N

pub record SegmentRule (N : Type 0) : Type 0 where
  pub attribute : Text
  pub operator : SegmentOperator
  pub value : RuleValue N

pub data Match : Type 0 where
  match_all match_any : Match

pub record SegmentDefinition (N : Type 0) : Type 0 where
  pub match : Match
  pub rules : List (SegmentRule N)

-- A fact that is stored; `null` is one too.
pub data FactValue (N : Type 0) : Type 0 where
  null : FactValue N
  single : Scalar N → FactValue N
  several : List (Scalar N) → FactValue N

abbrev pub FactContext : Type 0 → Type 0
FactContext N = List (Text × FactValue N)

module _ (L : Language) where
  open L use {Number, number_of, print_number, same, at_most, is_finite, to_lower_case}

  -- `facts[attribute]`
  abbrev pub fact_of : Text → FactContext Number → Option (FactValue Number)
  fact_of attribute [] = none
  fact_of attribute ((name, value) ∷ facts) =
      if text_eq name attribute then some value else fact_of attribute facts

  -- `String(value)`
  abbrev pub print_scalar : Scalar Number → Text
  print_scalar (text s) = s
  print_scalar (number n) = print_number n

  abbrev pub print_many : List (Scalar Number) → Text
  print_many [] = []
  print_many (s ∷ []) = print_scalar s
  print_many (s ∷ (t ∷ ts)) = print_scalar s ++ (b',' ∷ print_many (t ∷ ts))

  abbrev pub print_value : RuleValue Number → Text
  print_value undefined = codes "undefined"
  print_value (one s) = print_scalar s
  print_value (many ss) = print_many ss

  -- `Number(value)`: that of its text where it is no number.
  abbrev pub numeric_scalar : Scalar Number → Number
  numeric_scalar (text s) = number_of s
  numeric_scalar (number n) = n

  abbrev pub numeric_value : RuleValue Number → Number
  numeric_value undefined = number_of (codes "undefined")
  numeric_value (one s) = numeric_scalar s
  numeric_value (many ss) = number_of (print_many ss)

  abbrev pub is_number : RuleValue Number → Bool
  is_number (one (number n)) = true
  is_number _ = false

  abbrev pub normalize : Text → Text
  normalize value = to_lower_case (trim value)

  unfoldable pub same_value : Scalar Number → RuleValue Number → Bool
  same_value (number n) expected = same n (numeric_value expected)
  same_value (text s) expected =
      if is_number expected
      then same (number_of s) (numeric_value expected)
      else text_eq (normalize s) (normalize (print_value expected))

  abbrev pub actuals_of : FactValue Number → List (Scalar Number)
  actuals_of null = []
  actuals_of (single s) = s ∷ []
  actuals_of (several ss) = ss

  unfoldable pub matches_any : FactValue Number → List (RuleValue Number) → Bool
  matches_any actual expected =
      any (λ one_of. any (λ candidate. same_value one_of candidate) expected) (actuals_of actual)

  abbrev pub to_list : RuleValue Number → List (Scalar Number)
  to_list (many ss) = ss
  to_list _ = []

  abbrev pub within : Number → Number → Number → Bool
  within numeric least most =
      if not (is_finite numeric) || not (is_finite least) || not (is_finite most)
      then false
      else at_most least numeric && at_most numeric most

  abbrev pub between_bounds : FactValue Number → List (Scalar Number) → Bool
  between_bounds (single s) (least ∷ (most ∷ [])) =
      within (numeric_scalar s) (numeric_scalar least) (numeric_scalar most)
  between_bounds _ _ = false

  unfoldable pub is_between : FactValue Number → RuleValue Number → Bool
  is_between actual value = between_bounds actual (to_list value)

  abbrev pub is_known : Option (FactValue Number) → Bool
  is_known none = false
  is_known (some null) = false
  is_known (some (single (text []))) = false
  is_known (some (single (text (c ∷ s)))) = true
  is_known (some (single (number n))) = true
  is_known (some (several [])) = false
  is_known (some (several (s ∷ ss))) = true

  -- The switch, on a fact that is known.
  abbrev pub evaluate_known : SegmentOperator → RuleValue Number → FactValue Number → Bool
  evaluate_known equals value actual = matches_any actual (value ∷ [])
  evaluate_known not_equals value actual = not (matches_any actual (value ∷ []))
  evaluate_known is_in value actual = matches_any actual (map one (to_list value))
  evaluate_known not_in value actual = not (matches_any actual (map one (to_list value)))
  evaluate_known between value actual = is_between actual value
  evaluate_known exists value actual = true

  abbrev pub evaluate_fact : SegmentOperator → RuleValue Number → Option (FactValue Number) → Bool
  evaluate_fact operator value none = false
  evaluate_fact operator value (some actual) =
      is_known (some actual) && evaluate_known operator value actual

  unfoldable pub evaluate_rule : SegmentRule Number → FactContext Number → Bool
  evaluate_rule rule facts = evaluate_fact rule.operator rule.value (fact_of rule.attribute facts)

  abbrev pub combine : Match → List Bool → Bool
  combine match_all results = all (λ b. b) results
  combine match_any results = any (λ b. b) results

  abbrev pub is_empty : List (SegmentRule Number) → Bool
  is_empty [] = true
  is_empty (rule ∷ rules) = false

  abbrev pub or_no_facts : Option (FactContext Number) → FactContext Number
  or_no_facts none = []
  or_no_facts (some facts) = facts

  unfoldable pub matches_definition :
      Option (SegmentDefinition Number) → Option (FactContext Number) → Bool
  matches_definition none facts = true
  matches_definition (some definition) facts =
      if is_empty definition.rules
      then true
      else combine definition.match
          (map (λ rule. evaluate_rule rule (or_no_facts facts)) definition.rules)
