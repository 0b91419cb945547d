-- ===== src/Tests/Billing.antt =====
-- A purchase, its commission and an invoice.
use atlas_erpbackend.Prelude.{
  ℕ, ◌≡◌, ◌↔◌, refl, Option, none, some, [], ◌∷◌, map, ℤ, pos, neg, ◌+ℤ◌, ◌-ℤ◌, ◌*ℤ◌, ◌≤ℤ◌, quot,
  ok, arith,
}
use atlas_erpbackend.Text.{Text, codes, trim, is_space, to_upper}
use atlas_erpbackend.Money.Values.{Value, string}
use atlas_erpbackend.Money.Amount.{
  to_minor_units, format_minor, minor_of_text, minor_of_parts, matches_amount, starts_negative,
  strip_sign,
}
use atlas_erpbackend.Money.Exact.{
  parse_money, parse_decimal_exact, exact_decimal_text, currency_scale, parse_rate_percent,
  positive_amount, no_options, assert_single_currency,
}
use atlas_erpbackend.Money.Division.{
  apply_rate_percent, divide_rounded, sum_minor, allocate_proportionally,
}
use atlas_erpbackend.Billing.Rules.{
  PurchaseSplit, PurchaseSplitInput, MdrPricing, MdrFee, InvoiceableCharge, InvoiceUnits,
  parse_purchase_split, split_violations, purchase_split_violations, expected_down_payment,
  raise_to_min, cap_to_max, compute_mdr_fee, invoice_units, compute_invoice_totals, print_totals,
}
use atlas_erpbackend.Billing.Purchase.{IsSplit, IsSixtyPercent, purchase_split_violations-IsSplit}
use atlas_erpbackend.Billing.Fee.{compute_mdr_fee-le_purchase, compute_mdr_fee_limits}
use atlas_erpbackend.Billing.Invoice.{IsBalanced, compute_invoice_totals_exact}
use atlas_erpbackend.Billing.Mdr.{
  MdrRule, Sale, ContractVersion, calculate_mdr, mdr_rule_specificity, applies_to,
  pick_best_mdr_rule,
}
use atlas_erpbackend.Billing.Mdr.Charged.{ChargedBy, calculate_mdr-ChargedBy}
use atlas_erpbackend.Billing.Mdr.Best.{IsBest, pick_best_mdr_rule-IsBest}
use atlas_erpbackend.Billing.Settlement.{Settlement, Payable, settlement_mismatches}
use atlas_erpbackend.Billing.Settlement.Agreement.{Agrees, settlement_mismatches-Agrees}
use atlas_erpbackend.Tests.Numbers.{naturals}

abbrev purchase : PurchaseSplitInput ℕ
purchase = record {
  purchase_amount = string (codes "100.01");
  down_payment_amount = string (codes "60.01");
  financed_amount = string (codes "40");
  installments = (1, string (codes "20")) ∷ ((2, string (codes "20.00")) ∷ []);
}

no_violation : purchase_split_violations naturals purchase ≡ ok []
unfolding purchase_split_violations parse_purchase_split split_violations parse_money currency_scale
    parse_decimal_exact exact_decimal_text to_minor_units minor_of_text minor_of_parts
    matches_amount starts_negative strip_sign trim is_space neg to_upper parse_rate_percent
    apply_rate_percent divide_rounded sum_minor ◌+ℤ◌ ◌-ℤ◌ ◌*ℤ◌
no_violation = refl

purchase_split_violations-IsSplit_example :
    (split : PurchaseSplit) × (expected : ℤ) × (parse_purchase_split naturals purchase ≡ ok split)
    × (expected_down_payment naturals split.purchase ≡ ok expected)
    × IsSixtyPercent split.purchase expected
    × IsSplit expected split (map (λ item. item.0) purchase.installments)
purchase_split_violations-IsSplit_example =
    purchase_split_violations-IsSplit naturals purchase no_violation

abbrev pricing : Option (Value ℕ) → Option (Value ℕ) → MdrPricing ℕ
pricing low high = record {
  rate_percent = string (codes "3.5");
  min_fee_amount = low;
  max_fee_amount = high;
}

abbrev fee_of : ℕ → MdrFee
fee_of cents = record {
  rate_units = pos 3500000;
  rate_percent = format_minor (pos 3500000) 6;
  fee_minor = pos cents;
  fee = format_minor (pos cents) 2;
}

fee_uncapped : compute_mdr_fee naturals (string (codes "100")) (pricing none none) ≡ ok (fee_of 350)
unfolding compute_mdr_fee raise_to_min cap_to_max parse_money currency_scale parse_decimal_exact
    exact_decimal_text to_minor_units minor_of_text minor_of_parts matches_amount starts_negative
    strip_sign trim is_space neg to_upper parse_rate_percent apply_rate_percent divide_rounded ◌*ℤ◌
fee_uncapped = refl

compute_mdr_fee-le_purchase_example :
    (purchase : ℤ) × (parse_money naturals (string (codes "100")) positive_amount ≡ ok purchase)
    × (pos 0 ≤ℤ (fee_of 350).fee_minor)
    × ((fee_of 350).fee_minor ≤ℤ purchase)
compute_mdr_fee-le_purchase_example =
    compute_mdr_fee-le_purchase naturals (string (codes "100")) (pricing none none) refl
      fee_uncapped

fee_capped :
    compute_mdr_fee naturals
      (string (codes "100"))
      (pricing (some (string (codes "1"))) (some (string (codes "2"))))
    ≡ ok (fee_of 200)
unfolding compute_mdr_fee raise_to_min cap_to_max parse_money currency_scale parse_decimal_exact
    exact_decimal_text to_minor_units minor_of_text minor_of_parts matches_amount starts_negative
    strip_sign trim is_space neg to_upper parse_rate_percent apply_rate_percent divide_rounded ◌*ℤ◌
fee_capped = refl

low_read : parse_money naturals (string (codes "1")) no_options ≡ ok (pos 100)
unfolding parse_money currency_scale parse_decimal_exact exact_decimal_text to_minor_units
    minor_of_text minor_of_parts matches_amount starts_negative strip_sign trim is_space neg
    to_upper
low_read = refl

high_read : parse_money naturals (string (codes "2")) no_options ≡ ok (pos 200)
unfolding parse_money currency_scale parse_decimal_exact exact_decimal_text to_minor_units
    minor_of_text minor_of_parts matches_amount starts_negative strip_sign trim is_space neg
    to_upper
high_read = refl

compute_mdr_fee_limits_example :
    (pos 100 ≤ℤ (fee_of 200).fee_minor) × ((fee_of 200).fee_minor ≤ℤ pos 200)
compute_mdr_fee_limits_example =
    compute_mdr_fee_limits naturals (string (codes "100"))
      (pricing (some (string (codes "1"))) (some (string (codes "2")))) (string (codes "1"))
      (string (codes "2")) refl refl low_read high_read (omega arith) fee_capped

abbrev charge : Text → InvoiceableCharge ℕ
charge amount = record { id = codes "charge"; amount_open = string amount; currency = codes "BOB" }

abbrev units : InvoiceUnits
units = record {
  currency = codes "BOB";
  ids = codes "charge" ∷ (codes "charge" ∷ []);
  nets = pos 1001 ∷ (pos 500 ∷ []);
  subtotal = pos 1501;
  tax = pos 195;
  line_taxes = pos 131 ∷ (pos 64 ∷ []);
}

invoiced :
    compute_invoice_totals naturals
      (charge (codes "10.01") ∷ (charge (codes "5") ∷ []))
      (string (codes "13"))
    ≡ ok (print_totals units)
unfolding compute_invoice_totals invoice_units assert_single_currency parse_money currency_scale
    parse_decimal_exact exact_decimal_text to_minor_units minor_of_text minor_of_parts
    matches_amount starts_negative strip_sign trim is_space neg to_upper parse_rate_percent
    apply_rate_percent divide_rounded allocate_proportionally sum_minor quot ◌+ℤ◌ ◌-ℤ◌ ◌*ℤ◌
invoiced = refl

compute_invoice_totals_exact_example :
    IsBalanced naturals (charge (codes "10.01") ∷ (charge (codes "5") ∷ [])) (print_totals units)
compute_invoice_totals_exact_example =
    compute_invoice_totals_exact naturals (charge (codes "10.01") ∷ (charge (codes "5") ∷ []))
      (string (codes "13")) invoiced

-- A rule for the branch alone, and one for the category and the risk.
abbrev branch_rule : MdrRule
branch_rule = record {
  id = codes "R1";
  rate_percent = codes "3";
  min_fee_amount = none;
  max_fee_amount = none;
  branch_id = some (codes "B");
  product_category = none;
  risk_segment = none;
}

abbrev category_rule : MdrRule
category_rule = record branch_rule {
  id = codes "R2";
  branch_id = none;
  product_category = some (codes "TV");
  risk_segment = some (codes "LOW");
}

abbrev tv_sale : Sale
tv_sale = record {
  branch_id = codes "B";
  product_category = some (codes "TV");
  risk_segment = some (codes "LOW");
}

branch_wins : pick_best_mdr_rule (category_rule ∷ branch_rule ∷ []) tv_sale ≡ some branch_rule
unfolding pick_best_mdr_rule applies_to mdr_rule_specificity
branch_wins = refl

pick_best_mdr_rule-IsBest_example :
    IsBest tv_sale
      (category_rule ∷ branch_rule ∷ [])
      (pick_best_mdr_rule (category_rule ∷ branch_rule ∷ []) tv_sale)
pick_best_mdr_rule-IsBest_example =
    pick_best_mdr_rule-IsBest tv_sale (category_rule ∷ branch_rule ∷ [])

abbrev owed_payable : Payable ℕ
owed_payable = record {
  amount = string (codes "70.50");
  currency = codes "BOB";
  account_id = codes "A";
}

abbrev paid : Settlement ℕ
paid = record {
  settlement_reference = codes "S1";
  amount = string (codes "70.5");
  currency = codes "BOB";
  beneficiary_account_id = codes "A";
  paid_at = 1300000;
  evidence_file_id = codes "E";
}

settlement_mismatches-Agrees_example :
    (settlement_mismatches naturals owed_payable paid 1000000 (some (codes "ACTIVE")) ≡ ok [])
    ↔ Agrees naturals owed_payable paid 1000000 (some (codes "ACTIVE"))
settlement_mismatches-Agrees_example =
    settlement_mismatches-Agrees naturals owed_payable paid 1000000 (some (codes "ACTIVE"))

abbrev two_rules : ContractVersion
two_rules = record { mdr_rules = category_rule ∷ branch_rule ∷ []; terms = [] }

calculate_mdr-ChargedBy_example :
    ChargedBy naturals
      (string (codes "100"))
      two_rules
      tv_sale
      (calculate_mdr naturals (string (codes "100")) two_rules tv_sale)
calculate_mdr-ChargedBy_example =
    calculate_mdr-ChargedBy naturals (string (codes "100")) two_rules tv_sale
