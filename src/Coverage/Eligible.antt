-- ===== src/Coverage/Eligible.antt =====
-- What an installment that may be covered has.
use atlas_erpbackend.Prelude.{
  ℕ, ◌≡◌, ◌≢◌, ◌⊎◌, ◌<◌, refl, sym, ◌∙◌, subst, Bool, true, false, ◌||◌, Option, none, some, List,
  [], ◌∷◌, All, ltb, ==_iff, ℤ, pos, ◌+ℤ◌, ◌-ℤ◌, ◌≤ℤ◌, int_laws, arith, if◌then◌else◌, Bool-cases,
  inl, inr, ok, >>=-ok, ok_injective,
}
use atlas_erpbackend.Text.{Text, codes, text_eq, text_eq_sound, text_eq_refl}
use atlas_erpbackend.Money.Values.{Floats, string}
use atlas_erpbackend.Money.Amount.{to_minor_units, format_minor}
use atlas_erpbackend.Money.Amount.RoundTrip.{minor-format}
use atlas_erpbackend.Coverage.{
  EligibilityNotice, Contract, EligibilityInput, Evidence, eligible, text_lt, is_past_due,
  with_status, has_any, is_active, sum_notices, evaluate_coverage_eligibility,
}
use atlas_erpbackend.Coverage.Guards.{evaluate_coverage_eligibility-passed}

-- The order of texts by their units, in which a text stands before its extensions. For dates as
-- YYYY-MM-DD it is the order of the calendar.
pub data IsBefore : Text → Text → Type 0 where
  shorter : (d : ℕ) (t : Text) → IsBefore [] (d ∷ t)
  smaller : {c d : ℕ} (s t : Text) → c < d → IsBefore (c ∷ s) (d ∷ t)
  later : (c : ℕ) {s t : Text} → IsBefore s t → IsBefore (c ∷ s) (c ∷ t)

-- The confirmed notices come to this many cents; a notice with any other status adds nothing.
pub data IsPaid (F : Floats) : List EligibilityNotice → ℤ → Type 0 where
  no_notice : IsPaid F [] (pos 0)
  counted :
      (n : EligibilityNotice) {notices : List EligibilityNotice} {amount total : ℤ}
      → n.status ≡ codes "CONFIRMED"
      → to_minor_units F (string n.amount) 2 ≡ ok amount
      → IsPaid F notices total
      → IsPaid F (n ∷ notices) (amount +ℤ total)
  passed_over :
      (n : EligibilityNotice) {notices : List EligibilityNotice} {total : ℤ}
      → n.status ≢ codes "CONFIRMED"
      → IsPaid F notices total
      → IsPaid F (n ∷ notices) total

-- An installment that is owed, and the amount that is left of it.
pub record IsOwed (F : Floats) (input : EligibilityInput) (amount : Text) : Type 0 where
  pub original : ℤ
  pub paid : ℤ
  pub contract : Contract
  pub no_payable : input.has_live_payable ≡ false
  pub coverable :
      (input.installment.status ≡ codes "SCHEDULED") ⊎ (input.installment.status ≡ codes "OVERDUE")
  pub confirmed : input.purchase_status ≡ codes "CONFIRMED"
  pub past_due : IsBefore input.installment.due_date input.business_date
  pub original_read : to_minor_units F (string input.installment.amount) 2 ≡ ok original
  pub paid_by_notices : IsPaid F input.notices paid
  pub no_pending : All (λ n. n.status ≢ codes "REPORTED") input.notices
  pub has_contract : input.contract ≡ some contract
  pub active : contract.status ≡ codes "ACTIVE"
  pub positive : pos 1 ≤ℤ (original -ℤ paid)
  pub balance : to_minor_units F (string amount) 2 ≡ ok (original -ℤ paid)

text_lt-IsBefore : (s t : Text) → text_lt s t ≡ true → IsBefore s t
text_lt-IsBefore [] [] h = cc
text_lt-IsBefore [] (d ∷ t) h = shorter d t
text_lt-IsBefore (c ∷ s) [] h = cc
text_lt-IsBefore (c ∷ s) (d ∷ t) h = elim (Bool-cases (ltb c d)) [
  | inl less ↦ smaller s t (ground arith)
  | inr not_less ↦
      let same = (==_iff c d).0 (ground arith) in
      subst (λ e. IsBefore (c ∷ s) (e ∷ t)) same (later c (text_lt-IsBefore s t (ground arith)))
]

differs : (s t : Text) → text_eq s t ≡ false → s ≢ t
differs s t h e = cc (h, subst (λ u. text_eq s u ≡ true) e (text_eq_refl s))

coverable_status :
    (s : Text)
    → (text_eq s (codes "SCHEDULED") || text_eq s (codes "OVERDUE")) ≡ true
    → (s ≡ codes "SCHEDULED") ⊎ (s ≡ codes "OVERDUE")
coverable_status s h = elim (Bool-cases (text_eq s (codes "SCHEDULED"))) [
  | inl e ↦ inl (text_eq_sound s (codes "SCHEDULED") e)
  | inr e ↦ inr (text_eq_sound s (codes "OVERDUE") (ground arith))
]

active_contract :
    (o : Option Contract)
    → is_active o ≡ true
    → (c : Contract) × (o ≡ some c) × (c.status ≡ codes "ACTIVE")
active_contract none h = cc
active_contract (some c) h = (c, refl, text_eq_sound c.status (codes "ACTIVE") h)

none_with_status :
    (status : Text) (notices : List EligibilityNotice)
    → has_any (with_status status notices) ≡ false
    → All (λ n. n.status ≢ status) notices
none_with_status status [] h = tt
none_with_status status (n ∷ notices) h =
    by_test (text_eq n.status status) (none_with_status status notices) refl h
  where
    by_test :
        (b : Bool)
        → (has_any (with_status status notices) ≡ false → All (λ n. n.status ≢ status) notices)
        → text_eq n.status status ≡ b
        → has_any (if b then n ∷ with_status status notices else with_status status notices) ≡ false
        → All (λ n. n.status ≢ status) (n ∷ notices)
    by_test true rest e k = cc
    by_test false rest e k = (differs n.status status e, rest k)

module _ (F : Floats) where
  sum_notices-IsPaid :
      (sum : ℤ) (notices : List EligibilityNotice) {paid : ℤ}
      → sum_notices F sum (with_status (codes "CONFIRMED") notices) ≡ ok paid
      → (total : ℤ) × IsPaid F notices total × (paid ≡ sum +ℤ total)
  unfolding sum_notices
  sum_notices-IsPaid sum [] h = (pos 0, no_notice, ok_injective (sym h) ∙ omega int_laws)
  sum_notices-IsPaid sum (n ∷ notices) {paid} h =
      by_test (text_eq n.status (codes "CONFIRMED")) (λ s. sum_notices-IsPaid s notices) refl h
    where
      by_test :
          (b : Bool)
          → ((s : ℤ)
              → sum_notices F s (with_status (codes "CONFIRMED") notices) ≡ ok paid
              → (total : ℤ) × IsPaid F notices total × (paid ≡ s +ℤ total))
          → text_eq n.status (codes "CONFIRMED") ≡ b
          → sum_notices F sum (
              if b
              then n ∷ with_status (codes "CONFIRMED") notices
              else with_status (codes "CONFIRMED") notices)
            ≡ ok paid
          → (total : ℤ) × IsPaid F (n ∷ notices) total × (paid ≡ sum +ℤ total)
      by_test true others e k =
          let (amount, read, k') = >>=-ok (to_minor_units F (string n.amount) 2) _ k in
          let (total, rest, whole) = others (sum +ℤ amount) k' in
          (
            amount +ℤ total,
            counted n (text_eq_sound n.status (codes "CONFIRMED") e) read rest,
            whole ∙ omega int_laws,
          )
      by_test false others e k =
          let (total, rest, whole) = others sum k in
          (total, passed_over n (differs n.status (codes "CONFIRMED") e) rest, whole)

  read_printed : (n : ℤ) {t : Text} → t ≡ format_minor n 2 → to_minor_units F (string t) 2 ≡ ok n
  unfolding to_minor_units
  read_printed n h = rw h (minor-format n 2)

  -- An installment is ELIGIBLE only if it has no live coverage, its status is SCHEDULED or OVERDUE,
  -- its purchase is CONFIRMED, its due date comes before the business date as a text, no notice is
  -- REPORTED, and it has a contract, which is ACTIVE. The text of the amount reads back as the amount
  -- of the installment less the sum of its CONFIRMED notices, which is at least one cent.
  pub evaluate_coverage_eligibility-IsOwed :
      (input : EligibilityInput) {amount : Text} {evidence : Evidence}
      → evaluate_coverage_eligibility F input ≡ ok (eligible amount evidence)
      → IsOwed F input amount
  unfolding is_past_due
  evaluate_coverage_eligibility-IsOwed input h =
      let (early, (original, paid, read, summed, left)) =
        evaluate_coverage_eligibility-passed F input h in
      let (total, notices, whole) = sum_notices-IsPaid (pos 0) input.notices summed in
      let same = whole ∙ omega int_laws in
      let (contract, has_contract, active) = active_contract input.contract left.active in
      record {
        original = original;
        paid = paid;
        contract = contract;
        no_payable = early.no_payable;
        coverable = coverable_status input.installment.status early.coverable;
        confirmed = text_eq_sound input.purchase_status (codes "CONFIRMED") early.confirmed;
        past_due = text_lt-IsBefore input.installment.due_date input.business_date early.past_due;
        original_read = read;
        paid_by_notices = subst (IsPaid F input.notices) (sym same) notices;
        no_pending = none_with_status (codes "REPORTED") input.notices left.no_pending;
        has_contract = has_contract;
        active = active;
        positive = left.positive;
        balance = read_printed (original -ℤ paid) left.balance;
      }
