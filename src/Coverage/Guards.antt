-- ===== src/Coverage/Guards.antt =====
-- The guards that evaluateCoverageEligibility goes past.
use atlas_erpbackend.Prelude.{
  ◌≡◌, refl, Bool, true, false, not, ◌||◌, Option, none, some, ℤ, pos, ◌-ℤ◌, ◌≤ℤ◌, leb_ℤ, arith,
  if◌then◌else◌, ok, ◌>>=◌, >>=-ok, ok_injective,
}
use atlas_erpbackend.Text.{Text, codes, text_eq}
use atlas_erpbackend.Money.Values.{Floats, string}
use atlas_erpbackend.Money.Amount.{to_minor_units, format_minor}
use atlas_erpbackend.Coverage.{
  EligibilityInput, EligibilityRejection, CoverageReviewReason, Evidence, eligible, rejected,
  review, is_past_due, is_coverable, early_rejection, with_status, has_any, is_active, evidence_of,
  settle, sum_notices, evaluate_coverage_eligibility,
}

-- The installment is due, confirmed and not settled otherwise.
pub record PassesEarly (input : EligibilityInput) : Type 0 where
  pub no_payable : input.has_live_payable ≡ false
  pub coverable : is_coverable input.installment.status ≡ true
  pub confirmed : text_eq input.purchase_status (codes "CONFIRMED") ≡ true
  pub past_due : is_past_due input.installment.due_date input.business_date ≡ true

all_false :
    (a b c d e f : Bool)
    → (if a
        then some EligibilityRejection.already_covered
        else if b
        then some EligibilityRejection.already_paid
        else if c
        then some EligibilityRejection.cancelled
        else if d
        then some EligibilityRejection.status_not_eligible
        else if e
        then some EligibilityRejection.status_not_eligible
        else if f
        then some EligibilityRejection.not_due
        else none)
      ≡ none
    → (a ≡ false) × ((d ≡ false) × ((e ≡ false) × (f ≡ false)))
all_false false false false false false false h = (refl, (refl, (refl, refl)))
all_false false false false false false true h = cc
all_false false false false false true f h = cc
all_false false false false true e f h = cc
all_false false false true d e f h = cc
all_false false true c d e f h = cc
all_false true b c d e f h = cc

kept : (b : Bool) → not b ≡ false → b ≡ true
kept true h = refl
kept false h = cc

first_false : (a b : Bool) → (a || b) ≡ false → a ≡ false
first_false true b h = cc
first_false false b h = refl

early_rejection-PassesEarly :
    (input : EligibilityInput) → early_rejection input ≡ none → PassesEarly input
unfolding early_rejection
early_rejection-PassesEarly input h =
    let status = input.installment.status in
    let (uncovered, (coverable, (confirmed, due))) =
      all_false (input.has_live_payable || text_eq status (codes "COVERED_BY_ATLAS"))
        (text_eq status (codes "PAID_TO_MERCHANT"))
        (text_eq status (codes "CANCELLED") || text_eq input.purchase_status (codes "CANCELLED"))
        (not (is_coverable status)) (not (text_eq input.purchase_status (codes "CONFIRMED")))
        (not (is_past_due input.installment.due_date input.business_date)) h in
    record {
      no_payable = first_false input.has_live_payable _ uncovered;
      coverable = kept (is_coverable input.installment.status) coverable;
      confirmed = kept (text_eq input.purchase_status (codes "CONFIRMED")) confirmed;
      past_due = kept (is_past_due input.installment.due_date input.business_date) due;
    }

-- The balance that is left, with nothing to look at.
pub record PassesBalance (input : EligibilityInput) (original paid : ℤ) (amount : Text)
    : Type 0 where
  pub positive : pos 1 ≤ℤ (original -ℤ paid)
  pub no_pending : has_any (with_status (codes "REPORTED") input.notices) ≡ false
  pub active : is_active input.contract ≡ true
  pub balance : amount ≡ format_minor (original -ℤ paid) 2

settle-PassesBalance :
    (input : EligibilityInput) (original paid : ℤ) {amount : Text} {evidence : Evidence}
    → settle input original paid ≡ eligible amount evidence
    → PassesBalance input original paid amount
unfolding settle
settle-PassesBalance input original paid {amount} {evidence} h =
    by_tests (leb_ℤ (original -ℤ paid) (pos 0))
      (has_any (with_status (codes "REPORTED") input.notices)) (is_active input.contract) refl refl
      refl h
  where
    more : (d : ℤ) → leb_ℤ d (pos 0) ≡ false → pos 1 ≤ℤ d
    more d e = ground arith

    by_tests :
        (none_left waiting active : Bool)
        → leb_ℤ (original -ℤ paid) (pos 0) ≡ none_left
        → has_any (with_status (codes "REPORTED") input.notices) ≡ waiting
        → is_active input.contract ≡ active
        → (if none_left
            then rejected EligibilityRejection.already_paid
            else if waiting
            then review CoverageReviewReason.coverage_with_pending_notice
                (evidence_of input original paid)
            else if not active
            then review CoverageReviewReason.contract_not_active (evidence_of input original paid)
            else eligible (format_minor (original -ℤ paid) 2) (evidence_of input original paid))
          ≡ eligible amount evidence
        → PassesBalance input original paid amount
    by_tests true waiting active a b c k = cc
    by_tests false true active a b c k = cc
    by_tests false false false a b c k = cc
    by_tests false false true a b c k = record {
      positive = more (original -ℤ paid) a;
      no_pending = b;
      active = c;
      balance = cc;
    }

-- What an ELIGIBLE outcome went through, by the tests of the code.
pub evaluate_coverage_eligibility-passed :
    (F : Floats) (input : EligibilityInput) {amount : Text} {evidence : Evidence}
    → evaluate_coverage_eligibility F input ≡ ok (eligible amount evidence)
    → PassesEarly input
      × ((original : ℤ) × (paid : ℤ) × (to_minor_units F (string input.installment.amount) 2
            ≡ ok original)
          × (sum_notices F (pos 0) (with_status (codes "CONFIRMED") input.notices) ≡ ok paid)
          × PassesBalance input original paid amount)
unfolding evaluate_coverage_eligibility
evaluate_coverage_eligibility-passed F input {amount} {evidence} h =
    by_code (early_rejection input) refl h
  where
    not_rejected : {c : EligibilityRejection} → rejected c ≡ eligible amount evidence → ⊥
    not_rejected k = cc

    by_code :
        (o : Option EligibilityRejection)
        → early_rejection input ≡ o
        → (elim o [
          | some code ↦ ok (rejected code)
          | none ↦ to_minor_units F (string input.installment.amount) 2 >>= λ original.
              sum_notices F (pos 0) (with_status (codes "CONFIRMED") input.notices) >>= λ paid.
              ok (settle input original paid)
        ])
          ≡ ok (eligible amount evidence)
        → PassesEarly input
          × ((original : ℤ) × (paid : ℤ) × (to_minor_units F (string input.installment.amount) 2
                ≡ ok original)
              × (sum_notices F (pos 0) (with_status (codes "CONFIRMED") input.notices) ≡ ok paid)
              × PassesBalance input original paid amount)
    by_code (some code) e k = absurd (not_rejected (ok_injective k))
    by_code none e k =
        let (original, read, k1) =
          >>=-ok (to_minor_units F (string input.installment.amount) 2) _ k in
        let (paid, summed, k2) =
          >>=-ok (sum_notices F (pos 0) (with_status (codes "CONFIRMED") input.notices)) _ k1 in
        (
          early_rejection-PassesEarly input e,
          (
            original,
            paid,
            read,
            summed,
            settle-PassesBalance input original paid (ok_injective k2),
          ),
        )
