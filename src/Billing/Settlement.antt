-- ===== src/Billing/Settlement.antt =====
-- What a declared payment of a payable has to agree with: src/modules/b2b-sales-crm/domain/payable-
-- settlement.ts and consumer-recovery.ts. A date is in milliseconds; a `Date` that is no date, whose
-- time is NaN, does not arise.
pub mod Agreement
use atlas_erpbackend.Prelude.{
  ℕ, ◌+◌, Bool, true, false, not, ◌&&◌, Option, none, some, List, [], ◌∷◌, ◌++◌, ℤ, pos, ltb, ◌==◌,
  eqb_ℤ, if◌then◌else◌, Result, ok, err, ◌>>=◌,
}
use atlas_erpbackend.Text.{Text, codes, text_eq}
use atlas_erpbackend.Money.Values.{Floats, Value, MoneyError}
use atlas_erpbackend.Money.Amount.{to_minor_units}

abbrev pub clock_skew_ms : ℕ
clock_skew_ms = 300000

-- A settlement as it is declared, or as it is registered.
pub record Settlement (N : Type 0) : Type 0 where
  pub settlement_reference : Text
  pub amount : Value N
  pub currency : Text
  pub beneficiary_account_id : Text
  -- The time of a valid `Date`.
  pub paid_at : ℕ
  pub evidence_file_id : Text

pub record Payable (N : Type 0) : Type 0 where
  pub amount : Value N
  pub currency : Text
  pub account_id : Text

pub data Problem : Type 0 where
  amount_differs currency_differs beneficiary_differs paid_in_the_future evidence_missing : Problem

abbrev pub problem_if : Bool → Problem → List Problem
problem_if b problem = if b then problem ∷ [] else []

abbrev pub is_active : Option Text → Bool
is_active none = false
is_active (some status) = text_eq status (codes "ACTIVE")

pub data RecoveryStatus : Type 0 where
  recovery_open recovered partially_recovered : RecoveryStatus

unfoldable pub recovery_status_for : ℤ → ℤ → RecoveryStatus
recovery_status_for recovered_minor covered_minor =
    if eqb_ℤ recovered_minor (pos 0)
    then recovery_open
    else if eqb_ℤ recovered_minor covered_minor
    then recovered
    else partially_recovered

module _ (F : Floats) where
  -- The amounts are read only where the references are the same.
  abbrev pub same_but_reference : Settlement F.Number → Settlement F.Number → Result MoneyError Bool
  same_but_reference row input = do
    left ← to_minor_units F row.amount 2
    right ← to_minor_units F input.amount 2
    ok (
        eqb_ℤ left right
        && text_eq row.currency input.currency
        && text_eq row.beneficiary_account_id input.beneficiary_account_id
        && row.paid_at == input.paid_at
        && text_eq row.evidence_file_id input.evidence_file_id)

  unfoldable pub is_same_settlement :
      Settlement F.Number → Settlement F.Number → Result MoneyError Bool
  is_same_settlement row input =
      if text_eq row.settlement_reference input.settlement_reference
      then same_but_reference row input
      else ok false

  abbrev pub problems_of :
      Bool → Payable F.Number → Settlement F.Number → ℕ → Option Text → List Problem
  problems_of same_amount payable declared now evidence_status =
      problem_if (not same_amount) amount_differs
      ++ (problem_if (not (text_eq declared.currency payable.currency)) currency_differs
          ++ (problem_if (not (text_eq declared.beneficiary_account_id payable.account_id))
                beneficiary_differs
              ++ (problem_if (ltb (now + clock_skew_ms) declared.paid_at) paid_in_the_future
                  ++ problem_if (not (is_active evidence_status)) evidence_missing)))

  unfoldable pub settlement_mismatches :
      Payable F.Number → Settlement F.Number → ℕ → Option Text → Result MoneyError (List Problem)
  settlement_mismatches payable declared now evidence_status = do
    given ← to_minor_units F declared.amount 2
    owed ← to_minor_units F payable.amount 2
    ok (problems_of (eqb_ℤ given owed) payable declared now evidence_status)
