-- ===== src/Tests/Money.antt =====
-- The money module.
use atlas_erpbackend.Prelude.{
  ◌*◌, ◌^◌, ◌-◌, ◌≡◌, refl, [], ◌∷◌, ◌++◌, ℤ, pos, negsuc, neg, ◌≤ℤ◌, quot, ◌+ℤ◌, ◌-ℤ◌, ◌*ℤ◌,
  magnitude, ok, ◌>>=◌, length, arith,
}
use atlas_erpbackend.Text.{codes, trim, is_space, split_0, split_1, to_upper}
use atlas_erpbackend.Text.Decimal.{print, read}
use atlas_erpbackend.Money.Values.{string}
use atlas_erpbackend.Money.Amount.{
  to_minor_units, from_minor_units, normalize_amount, strip_sign, or_zero, format_minor,
  minor_of_text, minor_of_parts, matches_amount, starts_negative,
}
use atlas_erpbackend.Money.Amount.RoundTrip.{to_minor_units-from_minor_units, normalize_amount_idem}
use atlas_erpbackend.Money.Amount.Rounding.{IsHalfUp, minor_of_parts_cut}
use atlas_erpbackend.Money.Exact.{
  parse_money, parse_decimal_exact, exact_decimal_text, currency_scale, parse_rate_percent,
  no_options, rate_scale,
}
use atlas_erpbackend.Money.Exact.Lossless.{parse_decimal_exact-lossless}
use atlas_erpbackend.Money.Exact.Range.{IsWithin, parse_money-IsWithin, parse_rate_percent_range}
use atlas_erpbackend.Money.Division.{half_even, divide_rounded, allocate_proportionally, sum_minor}
use atlas_erpbackend.Money.Division.Rounding.{IsRoundedQuotient, divide_rounded_nearest}
use atlas_erpbackend.Money.Division.Shares.{allocate_proportionally_exact}
use atlas_erpbackend.Tests.Numbers.{naturals}

to_minor_units-from_minor_units_example :
    (from_minor_units (negsuc 1249) 2 >>= λ t. to_minor_units naturals (string t) 2)
    ≡ ok (negsuc 1249)
to_minor_units-from_minor_units_example =
    to_minor_units-from_minor_units naturals (negsuc 1249) 2 (omega arith)

normalized : normalize_amount naturals (string (codes " 12.345 ")) 2 ≡ ok (codes "12.35")
unfolding normalize_amount to_minor_units from_minor_units format_minor minor_of_text minor_of_parts
    matches_amount starts_negative strip_sign trim is_space print
normalized = refl

normalize_amount_idem_example :
    normalize_amount naturals (string (codes "12.35")) 2 ≡ ok (codes "12.35")
normalize_amount_idem_example =
    normalize_amount_idem naturals (string (codes " 12.345 ")) 2 normalized

minor_of_parts_cut_example :
    IsHalfUp (minor_of_parts (codes "12") (codes "345") 2) (read (codes "12345")) (10 ^ (3 - 2))
minor_of_parts_cut_example = minor_of_parts_cut (codes "12") (codes "345") 2 (omega arith) refl

exact : parse_decimal_exact naturals (string (codes "-12.50")) 2 ≡ ok (negsuc 1249)
unfolding parse_decimal_exact exact_decimal_text to_minor_units minor_of_text minor_of_parts
    matches_amount starts_negative strip_sign trim is_space neg
exact = refl

parse_decimal_exact-lossless_example :
    let u = strip_sign (trim (codes "-12.50")) in
    magnitude (negsuc 1249) * 10 ^ length (split_1 b'.' u)
    ≡ read (or_zero (split_0 b'.' u) ++ split_1 b'.' u) * 10 ^ 2
parse_decimal_exact-lossless_example =
    parse_decimal_exact-lossless naturals (codes "-12.50") 2 exact

money_read : parse_money naturals (string (codes "12.50")) no_options ≡ ok (pos 1250)
unfolding parse_money currency_scale parse_decimal_exact exact_decimal_text to_minor_units
    minor_of_text minor_of_parts matches_amount starts_negative strip_sign trim is_space neg
    to_upper
money_read = refl

parse_money-IsWithin_example : IsWithin no_options (pos 1250)
parse_money-IsWithin_example =
    parse_money-IsWithin naturals (string (codes "12.50")) no_options money_read

rate_read : parse_rate_percent naturals (string (codes "3.5")) ≡ ok (pos 3500000)
unfolding parse_rate_percent parse_decimal_exact exact_decimal_text to_minor_units minor_of_text
    minor_of_parts matches_amount starts_negative strip_sign trim is_space neg
rate_read = refl

parse_rate_percent_range_example :
    (pos 0 ≤ℤ pos 3500000) × (pos 3500000 ≤ℤ pos (100 * 10 ^ rate_scale))
parse_rate_percent_range_example =
    parse_rate_percent_range naturals (string (codes "3.5")) rate_read

divide_rounded_nearest_example :
    (q : ℤ) × (divide_rounded (negsuc 4) (pos 2) half_even ≡ ok q)
    × IsRoundedQuotient half_even (negsuc 4) 2 q
divide_rounded_nearest_example = divide_rounded_nearest half_even (negsuc 4) 1

allocated :
    allocate_proportionally (pos 10) (pos 1 ∷ (pos 1 ∷ (pos 1 ∷ [])))
    ≡ ok (pos 4 ∷ (pos 3 ∷ (pos 3 ∷ [])))
unfolding allocate_proportionally sum_minor quot ◌+ℤ◌ ◌-ℤ◌ ◌*ℤ◌
allocated = refl

allocate_proportionally_exact_example :
    (sum_minor (pos 4 ∷ (pos 3 ∷ (pos 3 ∷ []))) ≡ pos 10)
    × (length (pos 4 ∷ (pos 3 ∷ (pos 3 ∷ []))) ≡ length (pos 1 ∷ (pos 1 ∷ (pos 1 ∷ []))))
allocate_proportionally_exact_example =
    allocate_proportionally_exact (pos 10) (pos 1 ∷ (pos 1 ∷ (pos 1 ∷ []))) allocated
