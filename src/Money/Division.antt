-- ===== src/Money/Division.antt =====
-- Division, percentages and shares of common/money/decimal-amount.util.ts.
pub mod Rounding
pub mod Shares
use atlas_erpbackend.Prelude.{
  ℕ, ◌+◌, ◌*◌, ◌/◌, ◌%◌, ◌^◌, Bool, true, false, ◌&&◌, ◌||◌, List, [], ◌∷◌, map, foldl, ℤ, pos, neg,
  magnitude, pos_part, is_neg, ◌+ℤ◌, ◌-ℤ◌, ◌*ℤ◌, quot, ltb, leb, ◌==◌, leb_ℤ, eqb_ℤ, if◌then◌else◌,
  any, replicate, Result, ok, err, ◌>>=◌, ◌>>◌, throw_if,
}
use atlas_erpbackend.Money.Values.{
  MoneyError, invalid_denominator, no_parts, negative_weights, zero_weights, invalid_count,
}
use atlas_erpbackend.Money.Exact.{rate_scale}

pub data RoundingMode : Type 0 where
  half_up half_even : RoundingMode

abbrev pub money_rounding_mode : RoundingMode
money_rounding_mode = half_up

abbrev pub takes_tie : RoundingMode → ℕ → Bool
takes_tie half_up quotient = true
takes_tie half_even quotient = quotient % 2 == 1

-- The magnitude of the quotient.
abbrev pub divide_magnitude : ℕ → ℕ → RoundingMode → ℕ
divide_magnitude magnitude denominator mode =
    let quotient = magnitude / denominator in
    let twice_remainder = magnitude % denominator * 2 in
    if ltb denominator twice_remainder || twice_remainder == denominator && takes_tie mode quotient
    then quotient + 1
    else quotient

unfoldable pub divide_rounded : ℤ → ℤ → RoundingMode → Result MoneyError ℤ
divide_rounded numerator denominator mode = do
  throw_if (leb_ℤ denominator (pos 0)) invalid_denominator
  let quotient = divide_magnitude (magnitude numerator) (magnitude denominator) mode
  ok (if is_neg numerator then neg (pos quotient) else pos quotient)

unfoldable pub apply_rate_percent : ℤ → ℤ → RoundingMode → Result MoneyError ℤ
apply_rate_percent amount_minor rate_units mode =
    divide_rounded (amount_minor *ℤ rate_units) (pos (100 * 10 ^ rate_scale)) mode

unfoldable pub sum_minor : List ℤ → ℤ
sum_minor values = foldl (λ total value. total +ℤ value) (pos 0) values

-- `parts[0] = parts[0] + rest`
abbrev pub add_to_first : ℤ → List ℤ → List ℤ
add_to_first rest [] = []
add_to_first rest (part ∷ parts) = (part +ℤ rest) ∷ parts

abbrev pub is_empty : List ℤ → Bool
is_empty [] = true
is_empty (x ∷ xs) = false

-- The shares before the remainder is given out; `weight_total` is positive where they are made.
abbrev pub truncated_shares : ℤ → ℤ → List ℤ → List ℤ
truncated_shares total weight_total weights =
    map (λ weight. quot (total *ℤ weight) (pos_part weight_total)) weights

unfoldable pub allocate_proportionally : ℤ → List ℤ → Result MoneyError (List ℤ)
allocate_proportionally total weights = do
  throw_if (is_empty weights) no_parts
  throw_if (any is_neg weights) negative_weights
  let weight_total = sum_minor weights
  throw_if (eqb_ℤ weight_total (pos 0)) zero_weights
  let parts = truncated_shares total weight_total weights
  ok (add_to_first (total -ℤ sum_minor parts) parts)

-- A count is a natural here: the negative and the fractional ones of the test do not arise.
unfoldable pub split_evenly : ℤ → ℕ → Result MoneyError (List ℤ)
split_evenly total count = do
  throw_if (ltb count 1) invalid_count
  allocate_proportionally total (replicate count (pos 1))
