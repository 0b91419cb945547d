-- ===== src/Tests/Merchants.antt =====
-- A covered installment and a queue of two cases.
use atlas_erpbackend.Prelude.{ℕ, ◌≡◌, refl, true, false, some, [], ◌∷◌, pos, ◌+ℤ◌, ◌-ℤ◌, ok}
use atlas_erpbackend.Text.{codes, trim, is_space}
use atlas_erpbackend.Money.Amount.{
  to_minor_units, format_minor, minor_of_text, minor_of_parts, matches_amount, starts_negative,
  strip_sign,
}
use atlas_erpbackend.Coverage.{
  EligibilityInput, eligible, evidence_of, early_rejection, is_past_due, settle, sum_notices,
  evaluate_coverage_eligibility,
}
use atlas_erpbackend.Coverage.Eligible.{IsOwed, evaluate_coverage_eligibility-IsOwed}
use atlas_erpbackend.Onboarding.{
  OnboardingCaseStatus, OnboardingCaseSnapshot, summarize_onboarding_queue,
}
use atlas_erpbackend.Onboarding.Queue.{Counts, summarize_onboarding_queue-Counts}
use atlas_erpbackend.Tests.Numbers.{naturals}

abbrev late_installment : EligibilityInput
late_installment = record {
  installment = record {
    id = codes "I1";
    status = codes "OVERDUE";
    due_date = codes "2026-09-30";
    amount = codes "100.00";
  };
  purchase_status = codes "CONFIRMED";
  contract = some (record {
    id = codes "C1";
    status = codes "ACTIVE";
    version_id = codes "V1";
    version_number = pos 1;
  });
  notices = record { id = codes "N1"; status = codes "CONFIRMED"; amount = codes "30.5" } ∷ [];
  has_live_payable = false;
  business_date = codes "2026-10-01";
}

covered :
    evaluate_coverage_eligibility naturals late_installment
    ≡ ok
        (eligible (format_minor (pos 6950) 2) (evidence_of late_installment (pos 10000) (pos 3050)))
unfolding evaluate_coverage_eligibility early_rejection is_past_due settle sum_notices
    to_minor_units minor_of_text minor_of_parts matches_amount starts_negative strip_sign trim
    is_space ◌+ℤ◌ ◌-ℤ◌
covered = refl

evaluate_coverage_eligibility-IsOwed_example :
    IsOwed naturals late_installment (format_minor (pos 6950) 2)
evaluate_coverage_eligibility-IsOwed_example =
    evaluate_coverage_eligibility-IsOwed naturals late_installment covered

abbrev case_of : OnboardingCaseStatus → ℕ → OnboardingCaseSnapshot
case_of status pending_items = record {
  status = status;
  pending_items = pending_items;
  has_checklist_items = true;
  has_active_contract = true;
  motor_approved = true;
}

summarize_onboarding_queue-Counts_example :
    Counts
      (case_of OnboardingCaseStatus.listo 0 ∷ (case_of OnboardingCaseStatus.completed 0 ∷ []))
      (summarize_onboarding_queue
        (case_of OnboardingCaseStatus.listo 0 ∷ (case_of OnboardingCaseStatus.completed 0 ∷ [])))
summarize_onboarding_queue-Counts_example =
    summarize_onboarding_queue-Counts
      (case_of OnboardingCaseStatus.listo 0 ∷ (case_of OnboardingCaseStatus.completed 0 ∷ []))
