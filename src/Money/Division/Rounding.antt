-- ===== src/Money/Division/Rounding.antt =====
-- The quotient of `divideRounded` against the nearest integer.
use atlas_erpbackend.Prelude.{
  ℕ, ◌+◌, ◌*◌, ◌/◌, ◌%◌, ◌≤◌, ◌<◌, ◌≡◌, ◌⊎◌, refl, true, false, ℤ, pos, negsuc, neg, magnitude,
  magnitude-neg, is_neg, arith, ok, err, leb_ℤ, suc, zero,
}
use atlas_erpbackend.Money.Values.{invalid_denominator}
use atlas_erpbackend.Money.Division.{
  RoundingMode, half_up, half_even, divide_magnitude, divide_rounded,
}

-- Where a tie goes: away from zero, or to the even quotient.
abbrev pub TieRule : RoundingMode → ℕ → ℕ → ℕ → Type 0
TieRule half_up n d q = 2 * n < 2 * (q * d) + d
TieRule half_even n d q = (2 * n ≡ 2 * (q * d) + d) ⊎ (2 * n + d ≡ 2 * (q * d)) → q % 2 ≡ 0

-- `q` is a nearest integer to `n / d`, and the one that the mode takes at a tie.
pub record IsNearest (mode : RoundingMode) (n d q : ℕ) : Type 0 where
  pub below : 2 * (q * d) ≤ 2 * n + d
  pub above : 2 * n ≤ 2 * (q * d) + d
  pub tie : TieRule mode n d q

abbrev Division : ℕ → ℕ → ℕ → ℕ → Type 0
Division n d q r = (n ≡ q * d + r) × (r < d)

division : (n d : ℕ) → 0 < d → Division n d (n / d) (n % d)
division n d h = (grind arith, grind arith)

next_multiple : (q d : ℕ) → (q + 1) * d ≡ q * d + d
next_multiple q d = omega arith

pub divide_magnitude-IsNearest :
    (mode : RoundingMode) (n d : ℕ) → 0 < d → IsNearest mode n d (divide_magnitude n d mode)
divide_magnitude-IsNearest half_up n d h = ground (arith, division n d h, next_multiple (n / d) d)
divide_magnitude-IsNearest half_even n d h = ground (arith, division n d h, next_multiple (n / d) d)

neg_pos_zero : (q : ℕ) → is_neg (neg (pos q)) ≡ false → magnitude (neg (pos q)) ≡ 0
unfolding neg
neg_pos_zero zero h = refl
neg_pos_zero (suc q) h = ground arith

-- What a division returns: a nearest integer, on the numerator's side of zero.
pub record IsRoundedQuotient (mode : RoundingMode) (n : ℤ) (d : ℕ) (q : ℤ) : Type 0 where
  pub nearest : IsNearest mode (magnitude n) d (magnitude q)
  pub negative : is_neg q ≡ true → is_neg n ≡ true
  pub positive : is_neg n ≡ true → is_neg q ≡ false → magnitude q ≡ 0

admitted_denominator : (k : ℕ) → leb_ℤ (pos (suc k)) (pos 0) ≡ false
admitted_denominator k = ground arith

pub divide_rounded-pos :
    (mode : RoundingMode) (n k : ℕ)
    → divide_rounded (pos n) (pos (suc k)) mode ≡ ok (pos (divide_magnitude n (suc k) mode))
unfolding divide_rounded
divide_rounded-pos mode n k = rw (admitted_denominator k)

divide_rounded-negsuc :
    (mode : RoundingMode) (n k : ℕ)
    → divide_rounded (negsuc n) (pos (suc k)) mode
      ≡ ok (neg (pos (divide_magnitude (suc n) (suc k) mode)))
unfolding divide_rounded
divide_rounded-negsuc mode n k = rw (admitted_denominator k)

-- By a positive denominator the division returns a nearest integer on the numerator's side of
-- zero, with ties as the mode says.
pub divide_rounded_nearest :
    (mode : RoundingMode) (n : ℤ) (k : ℕ)
    → (q : ℤ) × (divide_rounded n (pos (suc k)) mode ≡ ok q) × IsRoundedQuotient mode n (suc k) q
divide_rounded_nearest mode (pos n) k = (
  pos (divide_magnitude n (suc k) mode),
  divide_rounded-pos mode n k,
  record {
    nearest = divide_magnitude-IsNearest mode n (suc k) (omega arith);
    negative = λ h. cc;
    positive = λ h. cc;
  },
)
divide_rounded_nearest mode (negsuc n) k =
    let q = divide_magnitude (suc n) (suc k) mode in
    let size = magnitude-neg (pos q) in
    (
      neg (pos q),
      divide_rounded-negsuc mode n k,
      record {
        nearest = rw size (divide_magnitude-IsNearest mode (suc n) (suc k) (omega arith));
        negative = λ h. refl;
        positive = λ h e. neg_pos_zero q e;
      },
    )

-- A denominator that is not positive is refused.
pub divide_rounded-invalid_denominator :
    (mode : RoundingMode) (n d : ℤ)
    → leb_ℤ d (pos 0) ≡ true
    → divide_rounded n d mode ≡ err invalid_denominator
unfolding divide_rounded
divide_rounded-invalid_denominator mode n d h = rw h
