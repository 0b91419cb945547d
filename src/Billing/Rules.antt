-- ===== src/Billing/Rules.antt =====
-- modules/b2b-sales-crm/domain/merchant-billing-math.ts, definition by definition.
use atlas_erpbackend.Prelude.{
  ℕ, Bool, true, false, not, ◌||◌, Option, none, some, List, [], ◌∷◌, ◌++◌, map, ℤ, pos, negsuc,
  ◌+ℤ◌, ◌-ℤ◌, ltb_ℤ, eqb_ℤ, ◌==◌, if◌then◌else◌, any, Result, ok, err, ◌>>=◌, ◌>>◌, throw_if,
  map_ok,
}
use atlas_erpbackend.Text.{Text, codes}
use atlas_erpbackend.Money.Values.{Floats, Value, string, MoneyError, currency_mismatch}
use atlas_erpbackend.Money.Amount.{format_minor}
use atlas_erpbackend.Money.Exact.{
  no_options, positive_amount, parse_money, parse_rate_percent, assert_single_currency,
}
use atlas_erpbackend.Money.Division.{
  apply_rate_percent, sum_minor, allocate_proportionally, money_rounding_mode,
}

-- `DOWN_PAYMENT_RATE_PERCENT`
abbrev pub down_payment_rate_percent : Text
down_payment_rate_percent = codes "60"

-- The codes of `MoneyRuleViolation`.
pub data Violation : Type 0 where
  invalid_amount : Violation
  down_payment_not_60_percent : Violation
  financed_not_remainder : Violation
  installments_not_equal_financed : Violation
  duplicated_installment_number : Violation
  no_charges : Violation
  mixed_currencies : Violation

-- What a function of this file throws: a rule of its own, or an error of the money module.
pub data BillingError : Type 0 where
  rule : Violation → BillingError
  money : MoneyError → BillingError

abbrev pub lift_money {ℓ} : {A : Type ℓ} → Result MoneyError A → Result BillingError A
lift_money (ok a) = ok a
lift_money (err e) = err (money e)

pub record PurchaseSplit : Type 0 where
  pub purchase : ℤ
  pub down_payment : ℤ
  pub financed : ℤ
  pub installments : List ℤ

abbrev pub first_repeat : List ℕ → List ℕ → Bool
first_repeat seen [] = false
first_repeat seen (n ∷ ns) =
    let rest = first_repeat (n ∷ seen) ns in if any (λ m. m == n) seen then true else rest

abbrev pub violation_if : Bool → Violation → List Violation
violation_if true v = v ∷ []
violation_if false v = []

-- The violations of a split whose amounts could be read; `expected_down` is the 60 per cent.
unfoldable pub split_violations : ℤ → PurchaseSplit → List ℕ → List Violation
split_violations expected_down split numbers =
    let down_delta = split.down_payment -ℤ expected_down in
    violation_if (ltb_ℤ (pos 1) down_delta || ltb_ℤ down_delta (negsuc 0))
      down_payment_not_60_percent
    ++ (violation_if (not (eqb_ℤ (split.purchase -ℤ split.down_payment) split.financed))
          financed_not_remainder
        ++ (violation_if (not (eqb_ℤ (sum_minor split.installments) split.financed))
              installments_not_equal_financed
            ++ violation_if (first_repeat [] numbers) duplicated_installment_number))

pub record InvoiceUnits : Type 0 where
  pub currency : Text
  pub ids : List Text
  pub nets : List ℤ
  pub subtotal : ℤ
  pub tax : ℤ
  pub line_taxes : List ℤ

pub record InvoiceLine : Type 0 where
  pub id : Text
  pub net : Text
  pub tax : Text
  pub total : Text

pub record InvoiceTotals : Type 0 where
  pub currency : Text
  pub subtotal : Text
  pub tax : Text
  pub total : Text
  pub lines : List InvoiceLine

abbrev pub cents_text : ℤ → Text
cents_text m = format_minor m 2

abbrev pub print_lines : List Text → List ℤ → List ℤ → List InvoiceLine
print_lines (id ∷ ids) (net ∷ nets) (tax ∷ taxes) =
    record { id = id; net = cents_text net; tax = cents_text tax; total = cents_text (net +ℤ tax) }
    ∷ print_lines ids nets taxes
print_lines _ _ _ = []

abbrev pub print_totals : InvoiceUnits → InvoiceTotals
print_totals u = record {
  currency = u.currency;
  subtotal = cents_text u.subtotal;
  tax = cents_text u.tax;
  total = cents_text (u.subtotal +ℤ u.tax);
  lines = print_lines u.ids u.nets u.line_taxes;
}

abbrev pub has_none {ℓ} : {A : Type ℓ} → List A → Bool
has_none [] = true
has_none (_ ∷ _) = false

-- The `catch` around `assertSingleCurrency`.
abbrev pub single_currency : List Text → Result BillingError Text
single_currency currencies = elim (assert_single_currency currencies) [
  | ok currency ↦ ok currency
  | err (currency_mismatch codes) ↦ err (rule mixed_currencies)
  | err e ↦ err (money e)
]

pub record PurchaseSplitInput (N : Type 0) : Type 0 where
  pub purchase_amount : Value N
  pub down_payment_amount : Value N
  pub financed_amount : Value N
  pub installments : List (ℕ × Value N)

pub record MdrPricing (N : Type 0) : Type 0 where
  pub rate_percent : Value N
  pub min_fee_amount : Option (Value N)
  pub max_fee_amount : Option (Value N)

pub record MdrFee : Type 0 where
  pub rate_units : ℤ
  pub rate_percent : Text
  pub fee_minor : ℤ
  pub fee : Text

pub record InvoiceableCharge (N : Type 0) : Type 0 where
  pub id : Text
  pub amount_open : Value N
  pub currency : Text

module _ (F : Floats) where
  open F use {Number}

  unfoldable pub parse_purchase_split : PurchaseSplitInput Number → Result MoneyError PurchaseSplit
  parse_purchase_split input = do
    purchase ← parse_money F input.purchase_amount positive_amount
    down_payment ← parse_money F input.down_payment_amount no_options
    financed ← parse_money F input.financed_amount no_options
    installments ← map_ok (λ item. parse_money F item.1 positive_amount) input.installments
    ok (record {
      purchase = purchase;
      down_payment = down_payment;
      financed = financed;
      installments = installments;
    })

  -- The down payment that the product asks for.
  abbrev pub expected_down_payment : ℤ → Result MoneyError ℤ
  expected_down_payment purchase = do
    rate ← parse_rate_percent F (string down_payment_rate_percent)
    apply_rate_percent purchase rate money_rounding_mode

  -- An amount that cannot be read is the only violation reported. The `catch` covers only the
  -- reading: what the fixed rate throws goes on to the caller.
  unfoldable pub purchase_split_violations :
      PurchaseSplitInput Number → Result MoneyError (List Violation)
  purchase_split_violations input = elim (parse_purchase_split input) [
    | err e ↦ ok (invalid_amount ∷ [])
    | ok split ↦ expected_down_payment split.purchase >>= λ expected.
        ok (split_violations expected split (map (λ item. item.0) input.installments))
  ]

  -- `if (fee < min) fee = min`
  unfoldable pub raise_to_min : Option (Value Number) → ℤ → Result MoneyError ℤ
  raise_to_min none fee = ok fee
  raise_to_min (some amount) fee = do
    min ← parse_money F amount no_options
    ok (if ltb_ℤ fee min then min else fee)

  -- `if (fee > max) fee = max`
  unfoldable pub cap_to_max : Option (Value Number) → ℤ → Result MoneyError ℤ
  cap_to_max none fee = ok fee
  cap_to_max (some amount) fee = do
    max ← parse_money F amount no_options
    ok (if ltb_ℤ max fee then max else fee)

  unfoldable pub compute_mdr_fee : Value Number → MdrPricing Number → Result MoneyError MdrFee
  compute_mdr_fee purchase_amount pricing = do
    purchase ← parse_money F purchase_amount positive_amount
    rate_units ← parse_rate_percent F pricing.rate_percent
    base ← apply_rate_percent purchase rate_units money_rounding_mode
    raised ← raise_to_min pricing.min_fee_amount base
    fee ← cap_to_max pricing.max_fee_amount raised
    ok (record {
      rate_units = rate_units;
      rate_percent = format_minor rate_units 6;
      fee_minor = fee;
      fee = cents_text fee;
    })

  abbrev pub parse_nets : Text → List (InvoiceableCharge Number) → Result MoneyError (List ℤ)
  parse_nets currency charges =
      map_ok
        (λ charge.
          parse_money F charge.amount_open (record positive_amount { currency = some currency }))
        charges

  -- The amounts of the invoice, before they are printed.
  unfoldable pub invoice_units :
      List (InvoiceableCharge Number) → Value Number → Result BillingError InvoiceUnits
  invoice_units charges tax_rate_percent = do
    throw_if (has_none charges) (rule no_charges)
    currency ← single_currency (map (λ charge. charge.currency) charges)
    nets ← lift_money (parse_nets currency charges)
    let subtotal = sum_minor nets
    rate ← lift_money (parse_rate_percent F tax_rate_percent)
    tax ← lift_money (apply_rate_percent subtotal rate money_rounding_mode)
    line_taxes ← lift_money (allocate_proportionally tax nets)
    ok (record {
      currency = currency;
      ids = map (λ charge. charge.id) charges;
      nets = nets;
      subtotal = subtotal;
      tax = tax;
      line_taxes = line_taxes;
    })

  unfoldable pub compute_invoice_totals :
      List (InvoiceableCharge Number) → Value Number → Result BillingError InvoiceTotals
  compute_invoice_totals charges tax_rate_percent = do
    units ← invoice_units charges tax_rate_percent
    ok (print_totals units)

  unfoldable pub allocations_match_payment :
      Value Number → List (Value Number) → Text → Result MoneyError Bool
  allocations_match_payment amount allocations currency = do
    let options = record positive_amount { currency = some currency }
    payment ← parse_money F amount options
    applied ← map_ok (λ allocation. parse_money F allocation options) allocations
    ok (eqb_ℤ (sum_minor applied) payment)
