-- ===== src/Text/Hex.antt =====
-- `BigInt.prototype.toString(16)`, in upper case, and the number that it spells.
use atlas_erpbackend.Prelude.{
  ℕ, zero, suc, ◌+◌, ◌-◌, ◌*◌, ◌/◌, ◌%◌, ◌<◌, ◌≡◌, ap, [], ◌∷◌, arith, ltb, leb, if◌then◌else◌,
}
use atlas_erpbackend.Text.{Text, to_upper, upper_unit}

abbrev lower_digit : ℕ → ℕ
lower_digit d = if ltb d 10 then b'0' + d else b'a' + (d - 10)

-- The fuel is above the number, so the last digit is always reached.
print_hex_from : ℕ → ℕ → Text → Text
print_hex_from zero n out = out
print_hex_from (suc f) n out =
    let rest = print_hex_from f (n / 16) (lower_digit (n % 16) ∷ out) in
    if ltb n 16 then lower_digit n ∷ out else rest

unfoldable pub print_hex : ℕ → Text
unfolding print_hex_from
print_hex n = print_hex_from (suc n) n []

abbrev value_of : ℕ → ℕ
value_of c = if leb c b'9' then c - b'0' else c - b'A' + 10

-- The number that upper case digits spell behind `n`.
abbrev read_hex_from : ℕ → Text → ℕ
read_hex_from n [] = n
read_hex_from n (c ∷ s) = read_hex_from (n * 16 + value_of c) s

abbrev pub read_hex : Text → ℕ
read_hex s = read_hex_from 0 s

value-upper : (d : ℕ) → d < 16 → value_of (upper_unit (lower_digit d)) ≡ d
value-upper d h = ground arith

read_upper_digit :
    (m d : ℕ) (s : Text)
    → d < 16
    → read_hex_from m (to_upper (lower_digit d ∷ s)) ≡ read_hex_from (m * 16 + d) (to_upper s)
unfolding to_upper
read_upper_digit m d s h = ap (λ v. read_hex_from (m * 16 + v) (to_upper s)) (value-upper d h)

read_hex_from-print_hex_from :
    (f n : ℕ) (out : Text)
    → n < f
    → read_hex (to_upper (print_hex_from f n out)) ≡ read_hex_from n (to_upper out)
unfolding print_hex_from
read_hex_from-print_hex_from zero n out h = absurd (omega arith)
read_hex_from-print_hex_from (suc f) n out h = ground (
  arith,
  read_hex_from-print_hex_from f (n / 16) (lower_digit (n % 16) ∷ out),
  read_upper_digit (n / 16) (n % 16) out,
  read_upper_digit 0 n out,
)

-- A number is read back from its hexadecimal print in upper case.
pub read_hex-print_hex : (n : ℕ) → read_hex (to_upper (print_hex n)) ≡ n
unfolding print_hex to_upper
read_hex-print_hex n = read_hex_from-print_hex_from (suc n) n [] (omega arith)
