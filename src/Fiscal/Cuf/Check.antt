-- ===== src/Fiscal/Cuf/Check.antt =====
-- modulo11 beside its published rule.
use atlas_erpbackend.Prelude.{
  ℕ, ◌+◌, ◌-◌, ◌*◌, ◌%◌, ◌<◌, ◌≡◌, refl, ap, subst, ◌∙◌, true, [], ◌∷◌, arith, ◌==◌, if◌then◌else◌,
  all,
}
use atlas_erpbackend.Text.{Text, is_digit}
use atlas_erpbackend.Text.Decimal.{print, print_small}
use atlas_erpbackend.Fiscal.Cuf.{weighted_sum, modulo_11}
use mathlib.Core.List.{reverse}

-- The weights 2 to 9, again and again, for the digits from place `i` on.
abbrev pub cyclic_sum : ℕ → Text → ℕ
cyclic_sum i [] = 0
cyclic_sum i (c ∷ s) = (2 + i % 8) * (c - b'0') + cyclic_sum (i + 1) s

weighted_sum-cyclic_sum : (i : ℕ) (s : Text) → weighted_sum (2 + i % 8) s ≡ cyclic_sum i s
weighted_sum-cyclic_sum i [] = refl
weighted_sum-cyclic_sum i (c ∷ s) =
    ap (λ n. (2 + i % 8) * (c - b'0') + n)
      (ap (λ m. weighted_sum m s) next ∙ weighted_sum-cyclic_sum (i + 1) s)
  where
    next : (if (2 + i % 8) == 9 then 2 else (2 + i % 8) + 1) ≡ 2 + (i + 1) % 8
    next = ground arith

-- A remainder of ten has the digit 1, any other its own.
abbrev pub check_digit : ℕ → ℕ
check_digit r = if r == 10 then b'1' else b'0' + r

-- The check digit of a text of digits is the sum of its digits, weighted 2 to 9 again and again from the
-- right, modulo 11, where a remainder of ten has the digit 1; it is one decimal digit.
pub modulo_11-check_digit :
    (cadena : Text)
    → (modulo_11 cadena ≡ check_digit (cyclic_sum 0 (reverse cadena) % 11) ∷ [])
      × (all is_digit (modulo_11 cadena) ≡ true)
unfolding modulo_11
modulo_11-check_digit cadena =
    by_rest (weighted_sum 2 (reverse cadena)) (cyclic_sum 0 (reverse cadena))
      (weighted_sum-cyclic_sum 0 (reverse cadena))
  where
    digit_of : ℕ → Text
    digit_of r = if r == 10 then b'1' ∷ [] else if r == 11 then b'0' ∷ [] else print r

    at_rest :
        (r : ℕ) → r < 11 → (digit_of r ≡ check_digit r ∷ []) × (all is_digit (digit_of r) ≡ true)
    at_rest r h = ground (arith, print_small r)

    by_rest :
        (m n : ℕ)
        → m ≡ n
        → (digit_of (m % 11) ≡ check_digit (n % 11) ∷ [])
          × (all is_digit (digit_of (m % 11)) ≡ true)
    by_rest m n e =
        subst
          (λ k.
            (digit_of (m % 11) ≡ check_digit (k % 11) ∷ [])
            × (all is_digit (digit_of (m % 11)) ≡ true))
          e (at_rest (m % 11) (omega arith))
