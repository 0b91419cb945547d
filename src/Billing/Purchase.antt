-- ===== src/Billing/Purchase.antt =====
-- A purchase whose split has no violation.
use atlas_erpbackend.Prelude.{
  ℕ, ◌+◌, ◌*◌, ◌^◌, ◌≤◌, ◌≡◌, ◌≢◌, refl, sym, ◌∙◌, Bool, true, false, not, ◌||◌, List, [], ◌∷◌,
  ◌++◌, map, any, All, ℤ, pos, negsuc, ◌+ℤ◌, ◌-ℤ◌, ◌≤ℤ◌, ltb_ℤ, eqb_ℤ, eq_of_parts, sum_ℤ, arith,
  int_laws, ◌==◌, if◌then◌else◌, Result, ok, err, ◌>>=◌, >>=-ok, ok_injective, subst, map_ok,
}
use atlas_erpbackend.Text.{trim, is_space}
use atlas_erpbackend.Money.Values.{Floats, MoneyError, string}
use atlas_erpbackend.Money.Amount.{
  to_minor_units, minor_of_text, minor_of_parts, matches_amount, starts_negative, strip_sign,
}
use atlas_erpbackend.Money.Exact.{
  parse_money, parse_rate_percent, parse_decimal_exact, exact_decimal_text, positive_amount,
  no_options,
}
use atlas_erpbackend.Money.Exact.Range.{parse_money-IsWithin}
use atlas_erpbackend.Money.Division.{sum_minor, divide_magnitude, half_up}
use atlas_erpbackend.Money.Division.Rounding.{divide_magnitude-IsNearest}
use atlas_erpbackend.Billing.Fee.{apply_rate_percent-pos, nonneg_form}
use atlas_erpbackend.Money.Division.Shares.{sum_minor_lem}
use atlas_erpbackend.Billing.Rules.{
  PurchaseSplit, PurchaseSplitInput, Violation, violation_if, first_repeat, split_violations,
  parse_purchase_split, expected_down_payment, purchase_split_violations, invalid_amount,
  down_payment_rate_percent,
}

abbrev pub Distinct : List ℕ → Type 0
Distinct [] = Unit
Distinct (n ∷ ns) = All (λ m. n ≢ m) ns × Distinct ns

-- No number comes twice, and none was seen before.
first_repeat-Distinct :
    (seen ns : List ℕ)
    → first_repeat seen ns ≡ false
    → Distinct ns × All (λ m. any (λ k. k == m) seen ≡ false) ns
first_repeat-Distinct seen [] h = (tt, tt)
first_repeat-Distinct seen (n ∷ ns) h =
    let (fresh, rest) = both (any (λ m. m == n) seen) (first_repeat (n ∷ seen) ns) h in
    let (distinct, others) = first_repeat-Distinct (n ∷ seen) ns rest in
    ((differ ns others, distinct), (fresh, unseen ns others))
  where
    both : (a b : Bool) → (if a then true else b) ≡ false → (a ≡ false) × (b ≡ false)
    both a b e = ground arith

    apart : (m : ℕ) (b : Bool) → ((n == m) || b) ≡ false → n ≢ m
    apart m b e same = ground arith

    later : (m : ℕ) (b : Bool) → ((n == m) || b) ≡ false → b ≡ false
    later m b e = ground arith

    differ :
        (ms : List ℕ) → All (λ m. any (λ k. k == m) (n ∷ seen) ≡ false) ms → All (λ m. n ≢ m) ms
    differ [] e = tt
    differ (m ∷ ms) (e, es) = (apart m _ e, differ ms es)

    unseen :
        (ms : List ℕ)
        → All (λ m. any (λ k. k == m) (n ∷ seen) ≡ false) ms
        → All (λ m. any (λ k. k == m) seen ≡ false) ms
    unseen [] e = tt
    unseen (m ∷ ms) (e, es) = (later m _ e, unseen ms es)

-- The split is the one that the product allows.
pub record IsSplit (expected : ℤ) (split : PurchaseSplit) (numbers : List ℕ) : Type 0 where
  pub at_most : split.down_payment ≤ℤ expected +ℤ pos 1
  pub at_least : expected ≤ℤ split.down_payment +ℤ pos 1
  pub financed : split.down_payment +ℤ split.financed ≡ split.purchase
  pub installments : sum_ℤ split.installments ≡ split.financed
  pub distinct : Distinct numbers

no_violation :
    (b : Bool) (v : Violation) (vs : List Violation)
    → violation_if b v ++ vs ≡ []
    → (b ≡ false) × (vs ≡ [])
no_violation true v vs h = cc
no_violation false v vs h = (refl, h)

no_last : (b : Bool) (v : Violation) → violation_if b v ≡ [] → b ≡ false
no_last true v h = cc
no_last false v h = refl

near :
    (down expected : ℤ)
    → (ltb_ℤ (pos 1) (down -ℤ expected) || ltb_ℤ (down -ℤ expected) (negsuc 0)) ≡ false
    → (down ≤ℤ expected +ℤ pos 1) × (expected ≤ℤ down +ℤ pos 1)
near down expected h = let (a, b) = bounds (down -ℤ expected) h in (upper a, lower b)
  where
    bounds :
        (d : ℤ) → (ltb_ℤ (pos 1) d || ltb_ℤ d (negsuc 0)) ≡ false → (d ≤ℤ pos 1) × (negsuc 0 ≤ℤ d)
    bounds d e = ground arith

    upper : down -ℤ expected ≤ℤ pos 1 → down ≤ℤ expected +ℤ pos 1
    upper e = omega int_laws

    lower : negsuc 0 ≤ℤ down -ℤ expected → expected ≤ℤ down +ℤ pos 1
    lower e = omega int_laws

same : (a b : ℤ) → not (eqb_ℤ a b) ≡ false → a ≡ b
same a b h = ground (arith, eq_of_parts a b)

split_violations-IsSplit :
    (expected : ℤ) (split : PurchaseSplit) (numbers : List ℕ)
    → split_violations expected split numbers ≡ []
    → IsSplit expected split numbers
unfolding split_violations
split_violations-IsSplit expected split numbers h =
    let (down, h1) = no_violation _ _ _ h in
    let (financed, h2) = no_violation _ _ _ h1 in
    let (installments, h3) = no_violation _ _ _ h2 in
    let (at_most, at_least) = near split.down_payment expected down in
    record {
      at_most = at_most;
      at_least = at_least;
      financed =
          back split.purchase split.down_payment split.financed
            (same (split.purchase -ℤ split.down_payment) split.financed financed);
      installments =
          sym (sum_minor_lem split.installments)
          ∙ same (sum_minor split.installments) split.financed installments;
      distinct = (first_repeat-Distinct [] numbers (no_last (first_repeat [] numbers) _ h3)).0;
    }
  where
    back : (p d f : ℤ) → p -ℤ d ≡ f → d +ℤ f ≡ p
    back p d f e = rw (← e) (omega int_laws)

-- The amount is 60 per cent of a purchase that is not negative, to the half cent.
pub record IsSixtyPercent (purchase expected : ℤ) : Type 0 where
  pub whole : ℕ
  pub part : ℕ
  pub is_whole : purchase ≡ pos whole
  pub is_part : expected ≡ pos part
  pub below : 10 * part ≤ 6 * whole + 5
  pub above : 6 * whole ≤ 10 * part + 5

module _ (F : Floats) where
  sixty_read : parse_rate_percent F (string down_payment_rate_percent) ≡ ok (pos 60000000)
  unfolding parse_rate_percent parse_decimal_exact exact_decimal_text to_minor_units minor_of_text
      minor_of_parts matches_amount starts_negative strip_sign trim is_space
  sixty_read = refl

  expected_down_payment-IsSixtyPercent :
      (p : ℕ) {expected : ℤ}
      → expected_down_payment F (pos p) ≡ ok expected
      → IsSixtyPercent (pos p) expected
  expected_down_payment-IsSixtyPercent p h =
      let q = divide_magnitude (p * 60000000) (100 * 10 ^ 6) half_up in
      let near = divide_magnitude-IsNearest half_up (p * 60000000) (100 * 10 ^ 6) (omega arith) in
      let made = rw (sixty_read, apply_rate_percent-pos p 60000000 half_up) at h in
      record {
        whole = p;
        part = q;
        is_whole = refl;
        is_part = sym (ok_injective made);
        below = omega (arith, near.below);
        above = omega (arith, near.above);
      }

  parse_purchase_split-positive :
      (input : PurchaseSplitInput F.Number) {split : PurchaseSplit}
      → parse_purchase_split F input ≡ ok split
      → pos 0 ≤ℤ split.purchase
  unfolding parse_purchase_split
  parse_purchase_split-positive input h =
      let (purchase, read, h1) = >>=-ok (parse_money F input.purchase_amount positive_amount) _ h in
      let (down, _, h2) = >>=-ok (parse_money F input.down_payment_amount no_options) _ h1 in
      let (financed, _, h3) = >>=-ok (parse_money F input.financed_amount no_options) _ h2 in
      let (installments, _, h4) =
        >>=-ok (map_ok (λ item. parse_money F item.1 positive_amount) input.installments) _ h3 in
      subst (λ split. pos 0 ≤ℤ split.purchase) (ok_injective h4)
        ((parse_money-IsWithin F input.purchase_amount positive_amount read).sign refl)

  sixty_of :
      (purchase : ℤ) {expected : ℤ}
      → pos 0 ≤ℤ purchase
      → expected_down_payment F purchase ≡ ok expected
      → IsSixtyPercent purchase expected
  sixty_of purchase {expected} h made =
      let (p, same) = nonneg_form purchase h in
      subst (λ x. IsSixtyPercent x expected) (sym same)
        (expected_down_payment-IsSixtyPercent p
          (subst (λ x. expected_down_payment F x ≡ ok expected) same made))

-- A purchase with no violation could be read whole, its down payment is within a cent of the expected one,
-- which is 60 per cent of the purchase to the half cent, down payment and financed part make the purchase,
-- the installments make the financed part, and no installment number comes twice.
pub purchase_split_violations-IsSplit :
    (F : Floats) (input : PurchaseSplitInput F.Number)
    → purchase_split_violations F input ≡ ok []
    → (split : PurchaseSplit) × (expected : ℤ) × (parse_purchase_split F input ≡ ok split)
      × (expected_down_payment F split.purchase ≡ ok expected)
      × IsSixtyPercent split.purchase expected
      × IsSplit expected split (map (λ item. item.0) input.installments)
unfolding purchase_split_violations
purchase_split_violations-IsSplit F input h = of_reading (parse_purchase_split F input) refl h
  where
    not_nil : invalid_amount ∷ [] ≡ [] → ⊥
    not_nil e = cc

    of_reading :
        (r : Result MoneyError PurchaseSplit)
        → parse_purchase_split F input ≡ r
        → (elim r [
          | err e ↦ ok (invalid_amount ∷ [])
          | ok split ↦ expected_down_payment F split.purchase >>= λ expected.
              ok (split_violations expected split (map (λ item. item.0) input.installments))
        ])
          ≡ ok []
        → (split : PurchaseSplit) × (expected : ℤ) × (parse_purchase_split F input ≡ ok split)
          × (expected_down_payment F split.purchase ≡ ok expected)
          × IsSixtyPercent split.purchase expected
          × IsSplit expected split (map (λ item. item.0) input.installments)
    of_reading (err e) read k = absurd (not_nil (ok_injective k))
    of_reading (ok split) read k =
        let (expected, made, clean) = >>=-ok (expected_down_payment F split.purchase) _ k in
        (
          split,
          expected,
          read,
          made,
          sixty_of F split.purchase (parse_purchase_split-positive F input read) made,
          split_violations-IsSplit expected split (map (λ item. item.0) input.installments)
              (ok_injective clean),
        )
