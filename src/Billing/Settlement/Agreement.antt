-- ===== src/Billing/Settlement/Agreement.antt =====
-- settlementMismatches, where it returns nothing.
use atlas_erpbackend.Prelude.{
  ℕ, ◌+◌, ◌≤◌, ◌≡◌, ◌↔◌, refl, sym, ap, ◌∙◌, Bool, true, false, not, Option, none, some, List, [],
  ◌++◌, ℤ, ltb, eqb_ℤ, arith, ok, >>=-ok, ok_injective,
}
use atlas_erpbackend.Text.{Text, codes, text_eq, text_eq_sound, text_eq_refl}
use atlas_erpbackend.Money.Values.{Floats}
use atlas_erpbackend.Money.Amount.{to_minor_units}
use atlas_erpbackend.Billing.Settlement.{
  clock_skew_ms, Settlement, Payable, Problem, problem_if, is_active, settlement_mismatches,
}

-- The declared settlement agrees with the payable.
pub record Agrees (F : Floats) (payable : Payable F.Number) (declared : Settlement F.Number)
    (now : ℕ) (evidence_status : Option Text) : Type 0 where
  pub minor : ℤ
  pub given : to_minor_units F declared.amount 2 ≡ ok minor
  pub owed : to_minor_units F payable.amount 2 ≡ ok minor
  pub currency : declared.currency ≡ payable.currency
  pub beneficiary : declared.beneficiary_account_id ≡ payable.account_id
  pub not_future : declared.paid_at ≤ now + clock_skew_ms
  pub evidence : evidence_status ≡ some (codes "ACTIVE")

split_problem :
    (b : Bool) (p : Problem) (ps : List Problem)
    → problem_if b p ++ ps ≡ []
    → (b ≡ false) × (ps ≡ [])
split_problem true p ps h = cc
split_problem false p ps h = (refl, h)

no_problem : (b : Bool) (p : Problem) → problem_if b p ≡ [] → b ≡ false
no_problem true p h = cc
no_problem false p h = refl

of_not : (b : Bool) → not b ≡ false → b ≡ true
of_not b h = ground arith

active_only : (o : Option Text) → is_active o ≡ true → o ≡ some (codes "ACTIVE")
active_only none h = cc
active_only (some s) h = ap some (text_eq_sound s (codes "ACTIVE") h)

same_minor : (m n : ℤ) → eqb_ℤ m n ≡ true → m ≡ n
same_minor m n h = ground arith

same_minor_self : (m : ℤ) → eqb_ℤ m m ≡ true
same_minor_self m = ground arith

module _ (F : Floats) (payable : Payable F.Number) (declared : Settlement F.Number) (now : ℕ)
    (evidence_status : Option Text) where
  mismatches-Agrees :
      settlement_mismatches F payable declared now evidence_status ≡ ok []
      → Agrees F payable declared now evidence_status
  unfolding settlement_mismatches
  mismatches-Agrees h =
      let (given, read_given, h) = >>=-ok (to_minor_units F declared.amount 2) _ h in
      let (owed, read_owed, h) = >>=-ok (to_minor_units F payable.amount 2) _ h in
      let (amounts, h) = split_problem (not (eqb_ℤ given owed)) _ _ (ok_injective h) in
      let (currencies, h) =
        split_problem (not (text_eq declared.currency payable.currency)) _ _ h in
      let (accounts, h) =
        split_problem (not (text_eq declared.beneficiary_account_id payable.account_id)) _ _ h in
      let (dates, h) = split_problem (ltb (now + clock_skew_ms) declared.paid_at) _ _ h in
      let files = no_problem (not (is_active evidence_status)) _ h in
      record {
        minor = owed;
        given = read_given ∙ ap ok (same_minor given owed (of_not _ amounts));
        owed = read_owed;
        currency = text_eq_sound _ _ (of_not _ currencies);
        beneficiary = text_eq_sound _ _ (of_not _ accounts);
        not_future = ground arith;
        evidence = active_only evidence_status (of_not _ files);
      }

  Agrees-mismatches :
      Agrees F payable declared now evidence_status
      → settlement_mismatches F payable declared now evidence_status ≡ ok []
  unfolding settlement_mismatches
  Agrees-mismatches h =
      let same_currency : text_eq declared.currency payable.currency ≡ true =
        ap (text_eq declared.currency) (sym h.currency) ∙ text_eq_refl declared.currency in
      let same_account : text_eq declared.beneficiary_account_id payable.account_id ≡ true =
        ap (text_eq declared.beneficiary_account_id) (sym h.beneficiary)
        ∙ text_eq_refl declared.beneficiary_account_id in
      let active : is_active evidence_status ≡ true = ap is_active h.evidence in
      let dated : ltb (now + clock_skew_ms) declared.paid_at ≡ false = in_time h.not_future in
      rw (h.given, h.owed)
        (ap ok (rw (same_minor_self h.minor, same_currency, same_account, dated, active) refl))
    where
      in_time :
          declared.paid_at ≤ now + clock_skew_ms
          → ltb (now + clock_skew_ms) declared.paid_at ≡ false
      in_time h = ground arith

  -- No mismatch is found exactly where both amounts read as the same number of cents, the currency and the
  -- beneficiary are those of the payable, the payment is dated at most five minutes ahead, and the file of
  -- the evidence is active.
  pub settlement_mismatches-Agrees :
      (settlement_mismatches F payable declared now evidence_status ≡ ok [])
      ↔ Agrees F payable declared now evidence_status
  settlement_mismatches-Agrees = (mismatches-Agrees, Agrees-mismatches)
