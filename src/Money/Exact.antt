-- ===== src/Money/Exact.antt =====
-- The strict parsers of common/money/decimal-amount.util.ts: what does not fit is refused.
pub mod Lossless
pub mod Range
use atlas_erpbackend.Prelude.{
  ℕ, ◌+◌, ◌-◌, ◌*◌, ◌^◌, Bool, true, false, not, ◌&&◌, ◌||◌, Option, none, some, List, [], ◌∷◌,
  ◌++◌, ℤ, pos, neg, ltb, leb, ◌==◌, is_neg, ltb_ℤ, leb_ℤ, eqb_ℤ, if◌then◌else◌, length, drop, any,
  Result, ok, err, ◌>>=◌, ◌>>◌, throw_if, map,
}
use atlas_erpbackend.Text.{Text, codes, text_eq, trim, to_upper, split_1}
use atlas_erpbackend.Money.Values.{
  Floats, Value, null, undefined, bigint, number, string, other, MoneyError, invalid_decimal_amount,
  unsupported_currency, currency_mismatch, amount_out_of_range, unsafe_number, too_many_decimals,
  negative, zero_amount, exceeds_column, rate_range, print_ℤ,
}
use atlas_erpbackend.Money.Amount.{assert_scale, matches_amount, strip_sign, to_minor_units}

abbrev pub rate_scale : ℕ
rate_scale = 6

abbrev pub numeric_18_2_max_minor : ℤ
numeric_18_2_max_minor = pos (10 ^ 18 - 1)

-- `CURRENCY_MINOR_SCALE[code]`
abbrev pub currency_minor_scale : Text → Option ℕ
currency_minor_scale code =
    if text_eq code (codes "BOB")
    then some 2
    else if text_eq code (codes "USD")
    then some 2
    else none

abbrev pub or_throw {ℓ κ} : {E : Type ℓ} {A : Type κ} → Option A → E → Result E A
or_throw none e = err e
or_throw (some a) e = ok a

abbrev pub currency_code : Text → Text
currency_code currency = to_upper (trim currency)

unfoldable pub currency_scale : Text → Result MoneyError ℕ
currency_scale currency =
    or_throw (currency_minor_scale (currency_code currency)) unsupported_currency

-- `[...new Set(codes)]`
abbrev pub distinct_from : List Text → List Text → List Text
distinct_from seen [] = []
distinct_from seen (c ∷ cs) =
    let rest = distinct_from (c ∷ seen) cs in
    if any (text_eq c) seen then distinct_from seen cs else c ∷ rest

-- The one code of the list, if it is admitted.
abbrev pub only_code : List Text → Result MoneyError Text
only_code [] = err (currency_mismatch [])
only_code (code ∷ []) = do _ ← currency_scale code; ok code
only_code (code ∷ (next ∷ rest)) = err (currency_mismatch (code ∷ (next ∷ rest)))

unfoldable pub assert_single_currency : List Text → Result MoneyError Text
assert_single_currency currencies = only_code (distinct_from [] (map currency_code currencies))

pub record ParseMoneyOptions : Type 0 where
  pub currency : Option Text
  pub allow_negative : Bool
  pub allow_zero : Bool
  pub max_minor : Option ℤ

abbrev pub no_options : ParseMoneyOptions
no_options = record { currency = none; allow_negative = false; allow_zero = true; max_minor = none }

abbrev pub positive_amount : ParseMoneyOptions
positive_amount = record no_options { allow_zero = false }

abbrev pub or_default {ℓ} : {A : Type ℓ} → Option A → A → A
or_default none d = d
or_default (some a) d = a

-- `fraction.length > scale && /[1-9]/.test(fraction.slice(scale))`
abbrev pub loses_digits : Text → ℕ → Bool
loses_digits fraction scale =
    ltb scale (length fraction) && any (λ c. leb b'1' c && leb c b'9') (drop scale fraction)

module _ (F : Floats) where
  open F use {
    Number, is_finite, to_fixed, power_of_ten, max_safe_integer, one_millionth, multiply, subtract,
    abs, round, greater,
  }

  unfoldable pub exact_decimal_text : Value Number → ℕ → Result MoneyError Text
  exact_decimal_text (bigint n) scale = ok (print_ℤ n)
  exact_decimal_text (string s) scale = ok (trim s)
  exact_decimal_text (number x) scale = do
    throw_if (not (is_finite x)) invalid_decimal_amount
    let scaled = multiply x (power_of_ten scale)
    throw_if (greater (abs scaled) max_safe_integer) (amount_out_of_range unsafe_number)
    throw_if (greater (abs (subtract scaled (round scaled))) one_millionth)
        (amount_out_of_range too_many_decimals)
    ok (to_fixed x scale)
  exact_decimal_text null scale = err invalid_decimal_amount
  exact_decimal_text undefined scale = err invalid_decimal_amount
  exact_decimal_text other scale = err invalid_decimal_amount

  unfoldable pub parse_decimal_exact : Value Number → ℕ → Result MoneyError ℤ
  parse_decimal_exact value scale = do
    assert_scale scale
    text ← exact_decimal_text value scale
    throw_if (not (matches_amount text)) invalid_decimal_amount
    throw_if (loses_digits (split_1 b'.' (strip_sign text)) scale)
        (amount_out_of_range too_many_decimals)
    to_minor_units F (string text) scale

  unfoldable pub parse_money : Value Number → ParseMoneyOptions → Result MoneyError ℤ
  parse_money value options = do
    scale ← currency_scale (or_default options.currency (codes "BOB"))
    minor ← parse_decimal_exact value scale
    let max = or_default options.max_minor numeric_18_2_max_minor
    throw_if (is_neg minor && not options.allow_negative) (amount_out_of_range negative)
    throw_if (eqb_ℤ minor (pos 0) && not options.allow_zero) (amount_out_of_range zero_amount)
    throw_if (ltb_ℤ max minor || ltb_ℤ max (neg minor)) (amount_out_of_range exceeds_column)
    ok minor

  -- In millionths of a percentage point.
  unfoldable pub parse_rate_percent : Value Number → Result MoneyError ℤ
  parse_rate_percent value = do
    units ← parse_decimal_exact value rate_scale
    throw_if (is_neg units || ltb_ℤ (pos (100 * 10 ^ rate_scale)) units)
        (amount_out_of_range rate_range)
    ok units
