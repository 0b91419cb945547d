-- ===== src/Money/Exact/Range.antt =====
-- What `parseMoney` and `parseRatePercent` accept lies in the range that they promise.
use atlas_erpbackend.Prelude.{
  ◌*◌, ◌^◌, ◌≡◌, ◌≢◌, false, not, ◌&&◌, ◌||◌, arith, ℤ, pos, neg, is_neg, ltb_ℤ, eqb_ℤ, ◌≤ℤ◌, ok,
  >>=-ok, throw_if-ok, ok_injective, subst,
}
use atlas_erpbackend.Text.{codes}
use atlas_erpbackend.Money.Values.{Floats, Value}
use atlas_erpbackend.Money.Exact.{
  parse_decimal_exact, parse_money, parse_rate_percent, ParseMoneyOptions, or_default,
  numeric_18_2_max_minor, currency_scale, rate_scale,
}

-- The largest magnitude that the options allow.
abbrev pub bound_of : ParseMoneyOptions → ℤ
bound_of options = or_default options.max_minor numeric_18_2_max_minor

pub record IsWithin (options : ParseMoneyOptions) (m : ℤ) : Type 0 where
  pub sign : options.allow_negative ≡ false → pos 0 ≤ℤ m
  pub nonzero : options.allow_zero ≡ false → m ≢ pos 0
  pub upper : m ≤ℤ bound_of options
  pub lower : neg m ≤ℤ bound_of options

module _ (options : ParseMoneyOptions) (m : ℤ) where
  checks-IsWithin :
      (is_neg m && not options.allow_negative) ≡ false
      → (eqb_ℤ m (pos 0) && not options.allow_zero) ≡ false
      → (ltb_ℤ (bound_of options) m || ltb_ℤ (bound_of options) (neg m)) ≡ false
      → IsWithin options m
  checks-IsWithin sign zero_test size = record {
    sign = ground arith;
    nonzero = ground arith;
    upper = ground arith;
    lower = ground arith;
  }

-- An accepted amount has the sign, the size and the nonzero value that the options ask for.
pub parse_money-IsWithin :
    (F : Floats) (value : Value F.Number) (options : ParseMoneyOptions) {m : ℤ}
    → parse_money F value options ≡ ok m
    → IsWithin options m
unfolding parse_money
parse_money-IsWithin F value options h =
    let (scale, known, h1) =
      >>=-ok (currency_scale (or_default options.currency (codes "BOB"))) _ h in
    let (minor, read, h2) = >>=-ok (parse_decimal_exact F value scale) _ h1 in
    let (sign, h3) = throw_if-ok _ _ _ h2 in
    let (zero_test, h4) = throw_if-ok _ _ _ h3 in
    let (size, h5) = throw_if-ok _ _ _ h4 in
    subst (IsWithin options) (ok_injective h5) (checks-IsWithin options minor sign zero_test size)

-- An accepted rate lies between 0 and 100 per cent.
pub parse_rate_percent_range :
    (F : Floats) (value : Value F.Number) {units : ℤ}
    → parse_rate_percent F value ≡ ok units
    → (pos 0 ≤ℤ units) × (units ≤ℤ pos (100 * 10 ^ rate_scale))
unfolding parse_rate_percent
parse_rate_percent_range F value h =
    let (m, read, h1) = >>=-ok (parse_decimal_exact F value rate_scale) _ h in
    let (range, h2) = throw_if-ok _ _ _ h1 in
    subst (λ x. (pos 0 ≤ℤ x) × (x ≤ℤ pos (100 * 10 ^ rate_scale))) (ok_injective h2)
      (in_range m range)
  where
    in_range :
        (m : ℤ)
        → (is_neg m || ltb_ℤ (pos (100 * 10 ^ rate_scale)) m) ≡ false
        → (pos 0 ≤ℤ m) × (m ≤ℤ pos (100 * 10 ^ rate_scale))
    in_range m k = ground arith
