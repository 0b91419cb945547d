-- ===== src/Billing/Mdr.antt =====
-- The choice of a commission rule: mdr-rule-specificity.ts of src/modules/b2b-sales-crm/domain, and
-- calculateMdr and pickBestMdrRule of src/modules/b2b-sales-crm/services/b2b-sales-crm-use-case.base.ts.
pub mod Best
pub mod Charged
use atlas_erpbackend.Prelude.{
  ℕ, ◌+◌, Bool, true, false, not, ◌&&◌, ◌||◌, Option, none, some, List, [], ◌∷◌, leb, if◌then◌else◌,
  keep, Result, ok, err, ◌>>=◌,
}
use atlas_erpbackend.Text.{Text, text_eq}
use atlas_erpbackend.Money.Values.{Floats, Value, string, MoneyError}
use atlas_erpbackend.Billing.Rules.{MdrPricing, MdrFee, compute_mdr_fee}

pub record MdrRule : Type 0 where
  pub id : Text
  pub rate_percent : Text
  pub min_fee_amount : Option Text
  pub max_fee_amount : Option Text
  pub branch_id : Option Text
  pub product_category : Option Text
  pub risk_segment : Option Text

-- Whether a dimension is set: neither null nor empty.
abbrev pub is_set : Option Text → Bool
is_set none = false
is_set (some []) = false
is_set (some (c ∷ s)) = true

abbrev pub weight_branch : ℕ
weight_branch = 4

abbrev pub weight_product_category : ℕ
weight_product_category = 2

abbrev pub weight_risk_segment : ℕ
weight_risk_segment = 1

unfoldable pub mdr_rule_specificity : MdrRule → ℕ
mdr_rule_specificity rule =
    (if is_set rule.branch_id then weight_branch else 0)
    + (if is_set rule.product_category then weight_product_category else 0)
    + (if is_set rule.risk_segment then weight_risk_segment else 0)

-- `a === b` of two values that may be missing.
abbrev pub same_text : Option Text → Option Text → Bool
same_text none none = true
same_text (some s) (some t) = text_eq s t
same_text none (some t) = false
same_text (some s) none = false

abbrev pub fits : Option Text → Option Text → Bool
fits wanted given = not (is_set wanted) || same_text wanted given

-- The sale that a rule is chosen for.
pub record Sale : Type 0 where
  pub branch_id : Text
  pub product_category : Option Text
  pub risk_segment : Option Text

unfoldable pub applies_to : Sale → MdrRule → Bool
applies_to sale rule =
    fits rule.branch_id (some sale.branch_id)
    && fits rule.product_category sale.product_category
    && fits rule.risk_segment sale.risk_segment

-- `sort` by falling specificity, which keeps the order of equals.
abbrev pub insert_rule : MdrRule → List MdrRule → List MdrRule
insert_rule rule [] = rule ∷ []
insert_rule rule (other ∷ rules) =
    if leb (mdr_rule_specificity other) (mdr_rule_specificity rule)
    then rule ∷ (other ∷ rules)
    else other ∷ insert_rule rule rules

abbrev pub by_specificity : List MdrRule → List MdrRule
by_specificity [] = []
by_specificity (rule ∷ rules) = insert_rule rule (by_specificity rules)

abbrev pub first_rule : List MdrRule → Option MdrRule
first_rule [] = none
first_rule (rule ∷ rules) = some rule

unfoldable pub pick_best_mdr_rule : List MdrRule → Sale → Option MdrRule
pick_best_mdr_rule rules sale = first_rule (by_specificity (keep (applies_to sale) rules))

pub data TermType : Type 0 where
  mdr_term other_term : TermType

pub record CommercialTerm : Type 0 where
  pub term_type : TermType
  pub rate_percent : Option Text

pub record ContractVersion : Type 0 where
  pub mdr_rules : List MdrRule
  pub terms : List CommercialTerm

pub data MdrSource : Type 0 where
  mdr_rules commercial_terms : MdrSource

pub record MdrCharge : Type 0 where
  pub rate_percent : Text
  pub amount : Text
  pub source : MdrSource
  pub rule_id : Option Text

pub data MdrError : Type 0 where
  no_rule_or_term : MdrError
  mdr_money : MoneyError → MdrError

abbrev pub lift_mdr {ℓ} : {A : Type ℓ} → Result MoneyError A → Result MdrError A
lift_mdr (ok a) = ok a
lift_mdr (err e) = err (mdr_money e)

abbrev pub is_mdr_term : CommercialTerm → Bool
is_mdr_term term = elim term.term_type [
  | mdr_term ↦ elim term.rate_percent [ none ↦ false | some rate ↦ true ]
  | other_term ↦ false
]

-- `terms.find(…)?.ratePercent`, where it is not empty.
abbrev pub rate_of : Option Text → Option Text
rate_of none = none
rate_of (some []) = none
rate_of (some (c ∷ s)) = some (c ∷ s)

abbrev pub term_rate : List CommercialTerm → Option Text
term_rate [] = none
term_rate (term ∷ terms) = if is_mdr_term term then rate_of term.rate_percent else term_rate terms

module _ (F : Floats) where
  abbrev pub value_of : Option Text → Option (Value F.Number)
  value_of none = none
  value_of (some s) = some (string s)

  abbrev pub pricing_of : MdrRule → MdrPricing F.Number
  pricing_of rule = record {
    rate_percent = string rule.rate_percent;
    min_fee_amount = value_of rule.min_fee_amount;
    max_fee_amount = value_of rule.max_fee_amount;
  }

  abbrev pub charge_of : MdrFee → MdrSource → Option Text → MdrCharge
  charge_of fee source rule_id = record {
    rate_percent = fee.rate_percent;
    amount = fee.fee;
    source = source;
    rule_id = rule_id;
  }

  abbrev pub charge_by_term : Value F.Number → Option Text → Result MdrError MdrCharge
  charge_by_term purchase_amount none = err no_rule_or_term
  charge_by_term purchase_amount (some rate) = do
    fee ← lift_mdr (
        compute_mdr_fee F purchase_amount
          (record { rate_percent = string rate; min_fee_amount = none; max_fee_amount = none }))
    ok (charge_of fee commercial_terms none)

  abbrev pub charge_by_rule :
      Value F.Number → List CommercialTerm → Option MdrRule → Result MdrError MdrCharge
  charge_by_rule purchase_amount terms none = charge_by_term purchase_amount (term_rate terms)
  charge_by_rule purchase_amount terms (some rule) = do
    fee ← lift_mdr (compute_mdr_fee F purchase_amount (pricing_of rule))
    ok (charge_of fee mdr_rules (some rule.id))

  unfoldable pub calculate_mdr : Value F.Number → ContractVersion → Sale → Result MdrError MdrCharge
  calculate_mdr purchase_amount version sale =
      charge_by_rule purchase_amount version.terms (pick_best_mdr_rule version.mdr_rules sale)
