-- ===== src/Coverage.antt =====
-- Whether an installment may be covered: modules/b2b-sales-crm/domain/coverage-eligibility.ts, with
-- `isPastDue` of common/time/business-date.ts. Statuses, dates and ids are the strings of the source; the
-- texts of messages are left out.
pub mod Guards
pub mod Eligible
use atlas_erpbackend.Prelude.{
  ◌+◌, Bool, true, false, not, ◌&&◌, ◌||◌, Option, none, some, List, [], ◌∷◌, map, keep, ltb, ◌==◌,
  ℤ, pos, ◌+ℤ◌, ◌-ℤ◌, leb_ℤ, if◌then◌else◌, Result, ok, err, ◌>>=◌, ◌>>◌, throw_if,
}
use atlas_erpbackend.Text.{Text, codes, text_eq}
use atlas_erpbackend.Money.Values.{Floats, string, MoneyError}
use atlas_erpbackend.Money.Amount.{to_minor_units, format_minor}

-- `a < b` of strings: by code units, a prefix first.
abbrev pub text_lt : Text → Text → Bool
text_lt [] [] = false
text_lt [] (d ∷ t) = true
text_lt (c ∷ s) [] = false
text_lt (c ∷ s) (d ∷ t) = ltb c d || c == d && text_lt s t

unfoldable pub is_past_due : Text → Text → Bool
is_past_due due_date today = text_lt due_date today

pub record EligibilityNotice : Type 0 where
  pub id : Text
  pub status : Text
  pub amount : Text

pub record Installment : Type 0 where
  pub id : Text
  pub status : Text
  pub due_date : Text
  pub amount : Text

pub record Contract : Type 0 where
  pub id : Text
  pub status : Text
  pub version_id : Text
  pub version_number : ℤ

pub record EligibilityInput : Type 0 where
  pub installment : Installment
  pub purchase_status : Text
  pub contract : Option Contract
  pub notices : List EligibilityNotice
  pub has_live_payable : Bool
  pub business_date : Text

pub data EligibilityRejection : Type 0 where
  already_covered already_paid cancelled not_due status_not_eligible : EligibilityRejection

pub data CoverageReviewReason : Type 0 where
  coverage_with_pending_notice contract_not_active : CoverageReviewReason

pub record Evidence : Type 0 where
  pub business_date : Text
  pub due_date : Text
  pub installment_status : Text
  pub installment_amount : Text
  pub confirmed_paid_amount : Text
  pub eligible_amount : Text
  pub confirmed_notice_ids : List Text
  pub pending_notice_ids : List Text
  pub rejected_notice_ids : List Text
  pub contract : Option Contract

pub data EligibilityOutcome : Type 0 where
  eligible : Text → Evidence → EligibilityOutcome
  rejected : EligibilityRejection → EligibilityOutcome
  review : CoverageReviewReason → Evidence → EligibilityOutcome

-- `COVERABLE_STATUSES.has(status)`
abbrev pub is_coverable : Text → Bool
is_coverable status = text_eq status (codes "SCHEDULED") || text_eq status (codes "OVERDUE")

-- The early returns before any amount is read, in their order; `none` goes on.
unfoldable pub early_rejection : EligibilityInput → Option EligibilityRejection
early_rejection input =
    let status = input.installment.status in
    if input.has_live_payable || text_eq status (codes "COVERED_BY_ATLAS")
    then some already_covered
    else if text_eq status (codes "PAID_TO_MERCHANT")
    then some already_paid
    else if text_eq status (codes "CANCELLED") || text_eq input.purchase_status (codes "CANCELLED")
    then some cancelled
    else if not (is_coverable status)
    then some status_not_eligible
    else if not (text_eq input.purchase_status (codes "CONFIRMED"))
    then some status_not_eligible
    else if not (is_past_due input.installment.due_date input.business_date)
    then some not_due
    else none

abbrev pub with_status : Text → List EligibilityNotice → List EligibilityNotice
with_status status notices = keep (λ n. text_eq n.status status) notices

abbrev pub ids_of : List EligibilityNotice → List Text
ids_of notices = map (λ n. n.id) notices

abbrev pub has_any : List EligibilityNotice → Bool
has_any [] = false
has_any (_ ∷ _) = true

abbrev pub is_active : Option Contract → Bool
is_active none = false
is_active (some contract) = text_eq contract.status (codes "ACTIVE")

abbrev pub evidence_of : EligibilityInput → ℤ → ℤ → Evidence
evidence_of input original paid = record {
  business_date = input.business_date;
  due_date = input.installment.due_date;
  installment_status = input.installment.status;
  installment_amount = format_minor original 2;
  confirmed_paid_amount = format_minor paid 2;
  eligible_amount = format_minor (original -ℤ paid) 2;
  confirmed_notice_ids = ids_of (with_status (codes "CONFIRMED") input.notices);
  pending_notice_ids = ids_of (with_status (codes "REPORTED") input.notices);
  rejected_notice_ids = ids_of (with_status (codes "REJECTED") input.notices);
  contract = input.contract;
}

-- What follows once the amounts are read.
unfoldable pub settle : EligibilityInput → ℤ → ℤ → EligibilityOutcome
settle input original paid =
    let balance = original -ℤ paid in
    let evidence = evidence_of input original paid in
    if leb_ℤ balance (pos 0)
    then rejected already_paid
    else if has_any (with_status (codes "REPORTED") input.notices)
    then review coverage_with_pending_notice evidence
    else if not (is_active input.contract)
    then review contract_not_active evidence
    else eligible (format_minor balance 2) evidence

module _ (F : Floats) where
  -- The `reduce` over the confirmed notices.
  unfoldable pub sum_notices : ℤ → List EligibilityNotice → Result MoneyError ℤ
  sum_notices sum [] = ok sum
  sum_notices sum (n ∷ notices) =
      to_minor_units F (string n.amount) 2 >>= λ amount. sum_notices (sum +ℤ amount) notices

  unfoldable pub evaluate_coverage_eligibility :
      EligibilityInput → Result MoneyError EligibilityOutcome
  evaluate_coverage_eligibility input = elim (early_rejection input) [
    | some code ↦ ok (rejected code)
    | none ↦ to_minor_units F (string input.installment.amount) 2 >>= λ original.
        sum_notices (pos 0) (with_status (codes "CONFIRMED") input.notices) >>= λ paid.
        ok (settle input original paid)
  ]
