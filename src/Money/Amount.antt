-- ===== src/Money/Amount.antt =====
-- `toMinorUnits`, `fromMinorUnits` and `normalizeAmount` of common/money/decimal-amount.util.ts.
pub mod Shape
pub mod Rounding
pub mod RoundTrip
use atlas_erpbackend.Prelude.{
  ℕ, ◌+◌, ◌-◌, Bool, true, false, not, ◌&&◌, ◌||◌, List, [], ◌∷◌, ◌++◌, ℤ, pos, neg, magnitude,
  arith, ltb, leb, is_neg, ◌==◌, if◌then◌else◌, length, take, drop, all, Result, ok, err, ◌>>=◌,
  ◌>>◌, throw_if,
}
use atlas_erpbackend.Text.{Text, is_digit, trim, pad_start, pad_end, split_0, split_1}
use atlas_erpbackend.Text.Decimal.{print, read}
use atlas_erpbackend.Money.Values.{
  Floats, Value, null, undefined, bigint, number, string, other, MoneyError, invalid_decimal_amount,
  invalid_scale, print_ℤ,
}

abbrev pub default_amount_scale : ℕ
default_amount_scale = 2

abbrev pub max_supported_scale : ℕ
max_supported_scale = 12

-- A scale is a natural here: the negative and the fractional ones of the test do not arise.
abbrev pub assert_scale : ℕ → Result MoneyError (Unit {0})
assert_scale scale = throw_if (ltb max_supported_scale scale) invalid_scale

-- The digits at the head of a text, and the rest.
abbrev pub digits_of : Text → Text
digits_of [] = []
digits_of (c ∷ s) = if is_digit c then c ∷ digits_of s else []

abbrev pub after_digits : Text → Text
after_digits [] = []
after_digits (c ∷ s) = if is_digit c then after_digits s else c ∷ s

-- `.replace(/^[+-]/, '')`
unfoldable pub strip_sign : Text → Text
strip_sign [] = []
strip_sign (c ∷ s) = if c == b'+' || c == b'-' then s else c ∷ s

abbrev pub is_nil : Text → Bool
is_nil [] = true
is_nil (c ∷ s) = false

-- What may follow the integer digits: nothing, or a point and digits; one at least where no
-- integer digit came before.
abbrev pub matches_fraction : Bool → Text → Bool
matches_fraction no_integer [] = not no_integer
matches_fraction no_integer (c ∷ s) = c == b'.' && all is_digit s && not (no_integer && is_nil s)

-- `AMOUNT_PATTERN.test`
unfoldable pub matches_amount : Text → Bool
unfolding strip_sign
matches_amount text =
    let unsigned = strip_sign text in
    matches_fraction (is_nil (digits_of unsigned)) (after_digits unsigned)

unfoldable pub starts_negative : Text → Bool
starts_negative [] = false
starts_negative (c ∷ s) = c == b'-'

abbrev pub or_zero : Text → Text
or_zero [] = b'0' ∷ []
or_zero (c ∷ s) = c ∷ s

-- `roundingDigit >= '5'`, on the one unit that the padding leaves there.
abbrev pub rounds_up : Text → Bool
rounds_up [] = false
rounds_up (c ∷ s) = leb b'5' c

-- The absolute value, from the two parts of the unsigned text.
unfoldable pub minor_of_parts : Text → Text → ℕ → ℕ
minor_of_parts integer_digits fraction_part scale =
    let padded = pad_end (scale + 1) b'0' fraction_part in
    let minor = read (integer_digits ++ take scale padded) in
    if rounds_up (drop scale padded) then minor + 1 else minor

-- `toMinorUnits` from the pattern test on.
unfoldable pub minor_of_text : Text → ℕ → Result MoneyError ℤ
minor_of_text text scale = do
  throw_if (not (matches_amount text)) invalid_decimal_amount
  let unsigned = strip_sign text
  let minor = minor_of_parts (or_zero (split_0 b'.' unsigned)) (split_1 b'.' unsigned) scale
  ok (if starts_negative text then neg (pos minor) else pos minor)

-- The same, of a trimmed string.
abbrev pub minor_of_trimmed : Text → ℕ → Result MoneyError ℤ
minor_of_trimmed [] scale = ok (pos 0)
minor_of_trimmed (c ∷ s) scale = minor_of_text (c ∷ s) scale

-- `fromMinorUnits` past the test of the scale.
unfoldable pub format_minor : ℤ → ℕ → Text
format_minor minor scale =
    let is_negative = is_neg minor in
    let absolute = magnitude minor in
    let digits = pad_start (scale + 1) b'0' (print absolute) in
    let integer_part = take (length digits - scale) digits in
    let fraction_part = if scale == 0 then [] else drop (length digits - scale) digits in
    let sign = if is_negative && not (absolute == 0) then b'-' ∷ [] else [] in
    sign ++ (integer_part ++ (if is_nil fraction_part then [] else b'.' ∷ fraction_part))

unfoldable pub from_minor_units : ℤ → ℕ → Result MoneyError Text
from_minor_units minor scale = do assert_scale scale; ok (format_minor minor scale)

module _ (F : Floats) where
  open F use {Number, is_finite, to_fixed}

  unfoldable pub to_minor_units : Value Number → ℕ → Result MoneyError ℤ
  to_minor_units null scale = do assert_scale scale; ok (pos 0)
  to_minor_units undefined scale = do assert_scale scale; ok (pos 0)
  to_minor_units (bigint n) scale = do assert_scale scale; minor_of_text (print_ℤ n) scale
  to_minor_units (number x) scale = do
    assert_scale scale
    throw_if (not (is_finite x)) invalid_decimal_amount
    minor_of_text (to_fixed x scale) scale
  to_minor_units (string s) scale = do assert_scale scale; minor_of_trimmed (trim s) scale
  to_minor_units other scale = do assert_scale scale; err invalid_decimal_amount

  unfoldable pub normalize_amount : Value Number → ℕ → Result MoneyError Text
  normalize_amount value scale = do minor ← to_minor_units value scale; from_minor_units minor scale
