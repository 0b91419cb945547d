-- ===== src/Money/Values.antt =====
-- The inputs and the failures of common/money/decimal-amount.util.ts: an `unknown` value, the
-- operations of the language's floating point numbers that the file uses, and its exceptions.
use atlas_erpbackend.Prelude.{ℕ, ◌+◌, Bool, List, ◌∷◌, ℤ, pos, negsuc}
use atlas_erpbackend.Text.{Text}
use atlas_erpbackend.Text.Decimal.{print}

-- IEEE doubles are not modelled: their type and operations are a parameter.
pub record Floats : Type 1 where
  pub Number : Type 0
  pub is_finite : Number → Bool
  pub to_fixed : Number → ℕ → Text
  -- The exact decimal power `10 ** scale`, the bound 2 ^ 53 - 1 and the tolerance 1e-6.
  pub power_of_ten : ℕ → Number
  pub max_safe_integer : Number
  pub one_millionth : Number
  pub multiply : Number → Number → Number
  pub subtract : Number → Number → Number
  pub abs : Number → Number
  pub round : Number → Number
  pub greater : Number → Number → Bool

pub data Value (N : Type 0) : Type 0 where
  null : Value N
  undefined : Value N
  bigint : ℤ → Value N
  number : N → Value N
  string : Text → Value N
  other : Value N

-- Why `AmountOutOfRangeError` was thrown.
pub data Reason : Type 0 where
  unsafe_number too_many_decimals negative zero_amount exceeds_column rate_range : Reason

pub data MoneyError : Type 0 where
  invalid_decimal_amount : MoneyError
  invalid_scale : MoneyError
  unsupported_currency : MoneyError
  currency_mismatch : List Text → MoneyError
  amount_out_of_range : Reason → MoneyError
  invalid_denominator : MoneyError
  no_parts : MoneyError
  negative_weights : MoneyError
  zero_weights : MoneyError
  invalid_count : MoneyError

-- `BigInt.prototype.toString`
unfoldable pub print_ℤ : ℤ → Text
print_ℤ (pos n) = print n
print_ℤ (negsuc n) = b'-' ∷ print (n + 1)
