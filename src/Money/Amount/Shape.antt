-- ===== src/Money/Amount/Shape.antt =====
-- What the pattern test and the two splits see of a text that is digits, a point and digits.
use atlas_erpbackend.Prelude.{
  ℕ, ◌≡◌, refl, true, false, [], ◌∷◌, ◌++◌, arith, if◌then◌else◌, ◌==◌, all, append-nil,
}
use atlas_erpbackend.Text.{Text, is_digit, before, after, split_0, split_1}
use atlas_erpbackend.Text.Trim.{before-append, after-append}
use atlas_erpbackend.Money.Amount.{
  digits_of, after_digits, is_nil, matches_fraction, matches_amount, strip_sign,
}

pub digit_no_point : (c : ℕ) → is_digit c ≡ true → (c == b'.') ≡ false
digit_no_point c h = ground arith

-- The fraction as it is printed: with its point, and nothing where it has no digit.
abbrev pub pointed : Text → Text
pointed fraction = if is_nil fraction then [] else b'.' ∷ fraction

pub after_digits-append :
    (s t : Text) → all is_digit s ≡ true → after_digits (s ++ t) ≡ after_digits t
after_digits-append [] t h = refl
after_digits-append (c ∷ s) t h = ground (arith, after_digits-append s t)

after_digits-pointed : (fraction : Text) → after_digits (pointed fraction) ≡ pointed fraction
after_digits-pointed [] = refl
after_digits-pointed (c ∷ s) = refl

matches_fraction-pointed :
    (fraction : Text)
    → all is_digit fraction ≡ true
    → matches_fraction false (pointed fraction) ≡ true
matches_fraction-pointed [] h = refl
matches_fraction-pointed (c ∷ s) h = ground arith

before-pointed : (fraction : Text) → before b'.' (pointed fraction) ≡ []
before-pointed [] = refl
before-pointed (c ∷ s) = refl

after-pointed : (fraction : Text) → after b'.' (pointed fraction) ≡ fraction
after-pointed [] = refl
after-pointed (c ∷ s) = refl

pub before_digits : (s : Text) → all is_digit s ≡ true → before b'.' s ≡ s
before_digits [] e = refl
before_digits (c ∷ s) e = ground (arith, digit_no_point c, before_digits s)

-- Split at its point, a text of digits, point and digits has the two parts that it was made of.
pub split_0-pointed :
    (integer fraction : Text)
    → all is_digit integer ≡ true
    → split_0 b'.' (integer ++ pointed fraction) ≡ integer
split_0-pointed integer fraction h =
    rw (before-append b'.' is_digit digit_no_point integer (pointed fraction) h)
      (rw (before-pointed fraction) (append-nil integer))

pub split_1-pointed :
    (integer fraction : Text)
    → all is_digit integer ≡ true
    → all is_digit fraction ≡ true
    → split_1 b'.' (integer ++ pointed fraction) ≡ fraction
split_1-pointed integer fraction h k =
    rw (after-append b'.' is_digit digit_no_point integer (pointed fraction) h)
      (rw (after-pointed fraction) (before_digits fraction k))

module _ (c : ℕ) (integer fraction : Text) (head : is_digit c ≡ true)
    (digits : all is_digit integer ≡ true) (decimals : all is_digit fraction ≡ true) where
  pub strip_sign-unsigned :
      strip_sign (c ∷ (integer ++ pointed fraction)) ≡ c ∷ (integer ++ pointed fraction)
  unfolding strip_sign
  strip_sign-unsigned = ground arith

  unsigned_fraction :
      matches_fraction
        (is_nil (digits_of (c ∷ (integer ++ pointed fraction))))
        (after_digits (c ∷ (integer ++ pointed fraction)))
      ≡ true
  unsigned_fraction = rw head (
      rw (after_digits-append integer (pointed fraction) digits)
        (rw (after_digits-pointed fraction) (matches_fraction-pointed fraction decimals)))

  pub matches_amount-unsigned : matches_amount (c ∷ (integer ++ pointed fraction)) ≡ true
  unfolding matches_amount
  matches_amount-unsigned = rw strip_sign-unsigned unsigned_fraction

  pub matches_amount-negative : matches_amount (b'-' ∷ (c ∷ (integer ++ pointed fraction))) ≡ true
  unfolding matches_amount strip_sign
  matches_amount-negative = unsigned_fraction
