-- ===== src/Text/Decimal.antt =====
-- Decimal print and read of naturals: `BigInt.prototype.toString` and `BigInt(digits)`.
use Prim.Native.Nat.{ℕ, zero, suc, ◌+◌, ◌-◌, ◌*◌, ◌/◌, ◌%◌, ◌^◌, ◌≤◌, ◌<◌}
use mathlib.Core.Path.{◌≡◌, refl, sym, ap, subst, ◌∙◌}
use mathlib.Core.List.{List, [], ◌∷◌, ◌++◌}
use mathlib.Core.Bool.{Bool, true, ◌&&◌}
use native.Mathlib.Nat.{pow-suc}
use native.Mathlib.Omega.{arith}
use atlas_erpbackend.Prelude.Tests.{ltb, leb, if◌then◌else◌}
use atlas_erpbackend.Prelude.Lists.{all, length, replicate}

abbrev pub digit : ℕ → Bool
digit c = leb b'0' c && leb c b'9'

-- The fuel is above the number, so the last digit is always reached.
print_from : ℕ → ℕ → List ℕ → List ℕ
print_from zero n out = out
print_from (suc f) n out =
    let rest = print_from f (n / 10) ((b'0' + n % 10) ∷ out) in
    if ltb n 10 then (b'0' + n) ∷ out else rest

unfoldable pub print : ℕ → List ℕ
unfolding print_from
print n = print_from (suc n) n []

-- The number that digits spell behind `n`.
abbrev pub read_from : ℕ → List ℕ → ℕ
read_from n [] = n
read_from n (c ∷ s) = read_from (n * 10 + (c - b'0')) s

abbrev pub read : List ℕ → ℕ
read s = read_from 0 s

read_from-print_from :
    (f n : ℕ) (out : List ℕ) → n < f → read (print_from f n out) ≡ read_from n out
unfolding print_from
read_from-print_from zero n out h = absurd (omega arith)
read_from-print_from (suc f) n out h =
    ground (arith, read_from-print_from f (n / 10) ((b'0' + n % 10) ∷ out))

-- A number is read back from its print.
pub read-print : (n : ℕ) → read (print n) ≡ n
unfolding print
read-print n = read_from-print_from (suc n) n [] (omega arith)

all-print_from :
    (f n : ℕ) (out : List ℕ) → all digit out ≡ true → all digit (print_from f n out) ≡ true
unfolding print_from
all-print_from zero n out h = h
all-print_from (suc f) n out h = ground (arith, all-print_from f (n / 10) ((b'0' + n % 10) ∷ out))

pub all-print : (n : ℕ) → all digit (print n) ≡ true
unfolding print
all-print n = all-print_from (suc n) n [] refl

pub read_from-append : (n : ℕ) (s t : List ℕ) → read_from n (s ++ t) ≡ read_from (read_from n s) t
read_from-append n [] t = refl
read_from-append n (c ∷ s) t = read_from-append (n * 10 + (c - b'0')) s t

pub read-zeros : (k : ℕ) (s : List ℕ) → read (replicate k b'0' ++ s) ≡ read s
read-zeros zero s = refl
read-zeros (suc k) s = read-zeros k s

shift_step : (n d p : ℕ) → (n * 10 + d) * p ≡ n * (p * 10) + d * p
shift_step n d p = omega arith

-- Digits behind `n` shift it by their number.
pub read_from_shift : (n : ℕ) (s : List ℕ) → read_from n s ≡ n * 10 ^ length s + read s
read_from_shift n [] = omega arith
read_from_shift n (c ∷ s) =
    rw (pow-suc, read_from_shift (n * 10 + (c - b'0')) s, read_from_shift (0 + (c - b'0')) s)
      (omega
        (arith, shift_step n (c - b'0') (10 ^ length s), shift_step 0 (c - b'0') (10 ^ length s)))

pub read_from-append_shift :
    (n : ℕ) (s t : List ℕ) → read_from n (s ++ t) ≡ read_from n s * 10 ^ length t + read t
read_from-append_shift n s t = rw (read_from-append n s t) (read_from_shift (read_from n s) t)

digit_bound : (d p r : ℕ) → d ≤ 9 → r < p → d * p + r < p * 10
digit_bound d p r h k = grind arith

pub read_bound : (s : List ℕ) → all digit s ≡ true → read s < 10 ^ length s
read_bound [] h = omega arith
read_bound (c ∷ s) h =
    rw (pow-suc, read_from_shift (0 + (c - b'0')) s)
      (ground (arith, digit_bound (c - b'0') (10 ^ length s) (read s), read_bound s))

-- A number under ten prints as its digit.
pub print_small : (n : ℕ) → n < 10 → print n ≡ (b'0' + n) ∷ []
unfolding print print_from
print_small n h = ground arith

less_quotient : (d e p r q : ℕ) → r < p → d < e → d * p + r < e * p + q
less_quotient d e p r q h k =
    let more : (e - d - 1 + 1 + d) * p ≡ (e - d - 1) * p + p + d * p = omega arith in
    let whole : e - d - 1 + 1 + d ≡ e = omega arith in omega (arith, more, ap (λ n. n * p) whole)

quotient_unique : (d e p r q : ℕ) → r < p → q < p → d * p + r ≡ e * p + q → d ≡ e
quotient_unique d e p r q h k same = grind (arith, less_quotient d e p r q, less_quotient e d p q r)

read-cons : (c : ℕ) (s : List ℕ) → read (c ∷ s) ≡ (c - b'0') * 10 ^ length s + read s
read-cons c s =
    let value : 0 + (c - b'0') ≡ c - b'0' = omega arith in
    read_from_shift (0 + (c - b'0')) s ∙ ap (λ d. d * 10 ^ length s + read s) value

-- Two texts of as many digits that spell the same number are the same.
pub read_injective :
    (s t : List ℕ)
    → all digit s ≡ true
    → all digit t ≡ true
    → length s ≡ length t
    → read s ≡ read t
    → s ≡ t
read_injective [] [] h k l e = refl
read_injective [] (d ∷ t) h k l e = absurd (omega arith)
read_injective (c ∷ s) [] h k l e = absurd (omega arith)
read_injective (c ∷ s) (d ∷ t) h k l e =
    let sizes : length s ≡ length t = omega arith in
    let spelled : (c - b'0') * 10 ^ length s + read s ≡ (d - b'0') * 10 ^ length s + read t =
      sym (read-cons c s)
      ∙ e
      ∙ read-cons d t
      ∙ ap (λ n. (d - b'0') * 10 ^ n + read t) (sym sizes) in
    let bound_s = read_bound s (ground arith) in
    let bound_t = subst (λ n. read t < 10 ^ n) (sym sizes) (read_bound t (ground arith)) in
    let first : c - b'0' ≡ d - b'0' =
      quotient_unique (c - b'0') (d - b'0') (10 ^ length s) (read s) (read t) bound_s bound_t
        spelled in
    let same_digit : c ≡ d = ground arith in
    let others : read s ≡ read t = grind arith in
    ap (λ x. x ∷ s) same_digit
    ∙ ap (λ u. d ∷ u) (read_injective s t (ground arith) (ground arith) sizes others)
