-- ===== src/Money/Exact/Lossless.antt =====
-- What the strict parser accepts it reads without loss.
use atlas_erpbackend.Prelude.{
  ℕ, ◌+◌, ◌-◌, ◌*◌, ◌^◌, ◌≡◌, refl, Bool, true, false, [], ◌∷◌, ◌++◌, arith, ◌==◌, ltb, all, length,
  Bool-cases, inl, inr, ltb→lt, ℤ, pos, magnitude, magnitude-neg, ◌⊎◌, ◌||◌, ok,
}
use atlas_erpbackend.Text.{Text, is_digit, is_space, trim, split_0, split_1}
use atlas_erpbackend.Text.Decimal.{read}
use atlas_erpbackend.Text.Scale.{power-add}
use atlas_erpbackend.Text.Trim.{
  visible, digit_visible, digits_visible, point_visible, minus_visible, trim-visible,
}
use atlas_erpbackend.Money.Values.{Floats, string}
use atlas_erpbackend.Money.Amount.{
  minor_of_parts, minor_of_text, minor_of_trimmed, matches_amount, matches_fraction, strip_sign,
  digits_of, after_digits, is_nil, or_zero, to_minor_units,
}
use atlas_erpbackend.Money.Amount.Shape.{digit_no_point, before_digits}
use atlas_erpbackend.Money.Amount.Rounding.{minor_of_parts_fits, minor_of_parts_cut_zeros}
use atlas_erpbackend.Money.Exact.{loses_digits, exact_decimal_text, parse_decimal_exact}

scaled_up : (n k m s : ℕ) → n + k ≡ s → m * 10 ^ k * 10 ^ n ≡ m * 10 ^ s
scaled_up n k m s h = rw (← h, power-add n k) (omega arith)

scaled_down : (m s n k w : ℕ) → s + k ≡ n → m * 10 ^ k ≡ w → m * 10 ^ n ≡ w * 10 ^ s
scaled_down m s n k w h e = rw (← h, power-add s k, ← e) (omega arith)

-- Where no digit but zeros stands below the scale, the minor units are exactly the number that
-- the digits spell, scaled: `units / 10 ^ scale = digits / 10 ^ decimals`.
pub minor_of_parts_exact :
    (integer fraction : Text) (scale : ℕ)
    → all is_digit fraction ≡ true
    → loses_digits fraction scale ≡ false
    → minor_of_parts integer fraction scale * 10 ^ length fraction
      ≡ read (integer ++ fraction) * 10 ^ scale
minor_of_parts_exact integer fraction scale decimals kept =
    let n = length fraction in
    elim (Bool-cases (ltb scale n)) [
      | inl long ↦
          scaled_down (minor_of_parts integer fraction scale) scale n (n - scale)
            (read (integer ++ fraction)) (ground arith)
            (minor_of_parts_cut_zeros integer fraction scale (ltb→lt _ _ long) decimals
              (ground arith))
      | inr short ↦
          rw (minor_of_parts_fits integer fraction scale (scale - n) (ground arith))
            (scaled_up n (scale - n) (read (integer ++ fraction)) scale (ground arith))
    ]

-- What the pattern says of a text that it accepts.
record IsAmountText (unsigned : Text) : Type 0 where
  decimals : all is_digit (split_1 b'.' unsigned) ≡ true
  no_space : all visible unsigned ≡ true

integer_digit : (c : ℕ) (s : Text) → is_digit c ≡ true → IsAmountText s → IsAmountText (c ∷ s)
integer_digit c s digit rest = record {
  decimals = rw (digit_no_point c digit) rest.decimals;
  no_space = ground (arith, digit_visible c digit, rest.no_space);
}

point_next :
    (no_integer : Bool) (c : ℕ) (s : Text)
    → matches_fraction no_integer (c ∷ s) ≡ true
    → IsAmountText (c ∷ s)
point_next no_integer c s h =
    let point : c ≡ b'.' = ground arith in
    let digits : all is_digit s ≡ true = ground arith in
    record {
      decimals = rw (point, before_digits s digits) digits;
      no_space = rw (point, point_visible) (digits_visible s digits);
    }

fraction-IsAmountText :
    (no_integer : Bool) (s : Text)
    → matches_fraction no_integer (after_digits s) ≡ true
    → IsAmountText s
fraction-IsAmountText no_integer [] h = record { decimals = refl; no_space = refl }
fraction-IsAmountText no_integer (c ∷ s) h = elim (Bool-cases (is_digit c)) [
  | inl digit ↦ integer_digit c s digit (fraction-IsAmountText no_integer s (rw digit at h))
  | inr mark ↦ point_next no_integer c s (rw mark at h)
]

plus_visible : visible b'+' ≡ true
unfolding is_space
plus_visible = refl

signed_visible : (s : Text) → all visible (strip_sign s) ≡ true → all visible s ≡ true
unfolding strip_sign
signed_visible [] h = refl
signed_visible (c ∷ s) h = elim (sign_cases c) [
  | inl plus ↦ rw (plus, plus_visible) (rw plus at h)
  | inr (inl minus) ↦ rw (minus, minus_visible) (rw minus at h)
  | inr (inr unsigned) ↦ rw unsigned at h
]
  where
    sign_cases : (d : ℕ) → (d ≡ b'+') ⊎ ((d ≡ b'-') ⊎ ((d == b'+' || d == b'-') ≡ false))
    sign_cases d = ground arith

matches_amount-IsAmountText :
    (s : Text)
    → matches_amount s ≡ true
    → IsAmountText (strip_sign s) × (all visible s ≡ true) × (is_nil s ≡ false)
unfolding matches_amount strip_sign
matches_amount-IsAmountText s h =
    let u = strip_sign s in
    let shape = fraction-IsAmountText (is_nil (digits_of u)) u h in
    (shape, signed_visible s shape.no_space, not_nil s h)
  where
    not_nil :
        (t : Text)
        → matches_fraction (is_nil (digits_of (strip_sign t))) (after_digits (strip_sign t)) ≡ true
        → is_nil t ≡ false
    not_nil [] e = cc
    not_nil (c ∷ t) e = refl

minor_of_text-magnitude :
    (t : Text) (scale : ℕ) {m : ℤ}
    → minor_of_text t scale ≡ ok m
    → let u = strip_sign t in
      magnitude m ≡ minor_of_parts (or_zero (split_0 b'.' u)) (split_1 b'.' u) scale
unfolding minor_of_text
minor_of_text-magnitude t scale h =
    let u = strip_sign t in
    let n = minor_of_parts (or_zero (split_0 b'.' u)) (split_1 b'.' u) scale in
    ground (arith, magnitude-neg (pos n))

minor_of_trimmed-not_nil :
    (t : Text) (scale : ℕ) → is_nil t ≡ false → minor_of_trimmed t scale ≡ minor_of_text t scale
minor_of_trimmed-not_nil [] scale h = cc
minor_of_trimmed-not_nil (c ∷ t) scale h = refl

abbrev fraction_of : Text → Text
fraction_of t = split_1 b'.' (strip_sign t)

accepted :
    (F : Floats) (s : Text) (scale : ℕ) {m : ℤ}
    → parse_decimal_exact F (string s) scale ≡ ok m
    → (matches_amount (trim s) ≡ true)
      × (loses_digits (fraction_of (trim s)) scale ≡ false)
      × (minor_of_trimmed (trim (trim s)) scale ≡ ok m)
unfolding parse_decimal_exact exact_decimal_text to_minor_units
accepted F s scale h = elim (Bool-cases (ltb 12 scale)) [
  | inl out ↦ cc (rw out at h)
  | inr in_range ↦ elim (Bool-cases (matches_amount (trim s))) [
    | inr bad ↦ cc (rw (in_range, bad) at h)
    | inl good ↦ elim (Bool-cases (loses_digits (fraction_of (trim s)) scale)) [
      | inl lost ↦ cc (rw (in_range, good, lost) at h)
      | inr kept ↦ (good, kept, rw (in_range, good, kept) at h)
    ]
  ]
]

-- The strict parser reads a text without loss: with `u` the trimmed text without its sign, its
-- digits over `10 ^ decimals` are the result over `10 ^ scale`.
pub parse_decimal_exact-lossless :
    (F : Floats) (s : Text) (scale : ℕ) {m : ℤ}
    → parse_decimal_exact F (string s) scale ≡ ok m
    → let u = strip_sign (trim s) in
      magnitude m * 10 ^ length (split_1 b'.' u)
      ≡ read (or_zero (split_0 b'.' u) ++ split_1 b'.' u) * 10 ^ scale
parse_decimal_exact-lossless F s scale h =
    let t = trim s in
    let (good, kept, made) = accepted F s scale h in
    let (shape, seen, some_unit) = matches_amount-IsAmountText t good in
    let read_once = rw (trim-visible t seen, minor_of_trimmed-not_nil t scale some_unit) at made in
    rw (minor_of_text-magnitude t scale read_once) (
      minor_of_parts_exact (or_zero (split_0 b'.' (strip_sign t))) (fraction_of t) scale
        shape.decimals kept)
