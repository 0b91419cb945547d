-- ===== src/Tests/Numbers.antt =====
-- Numbers to run the models with: the natural ones, for the floating point numbers of the language.
use atlas_erpbackend.Prelude.{
  ℕ, ◌-◌, ◌*◌, ◌^◌, true, [], ◌∷◌, ◌++◌, ltb, ◌==◌, if◌then◌else◌, replicate,
}
use atlas_erpbackend.Text.Decimal.{print}
use atlas_erpbackend.Money.Values.{Floats}

abbrev pub naturals : Floats
naturals = record {
  Number = ℕ;
  is_finite = λ n. true;
  to_fixed = λ n scale. print n ++ (if scale == 0 then [] else b'.' ∷ replicate scale b'0');
  power_of_ten = λ scale. 10 ^ scale;
  max_safe_integer = 2 ^ 53 - 1;
  one_millionth = 1;
  multiply = λ a b. a * b;
  subtract = λ a b. a - b;
  abs = λ n. n;
  round = λ n. n;
  greater = λ a b. ltb b a;
}
