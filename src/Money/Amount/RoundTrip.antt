-- ===== src/Money/Amount/RoundTrip.antt =====
-- An amount is read back from its print.
use atlas_erpbackend.Prelude.{
  ℕ, zero, suc, ◌+◌, ◌-◌, ◌≡◌, ◌≤◌, ◌<◌, refl, sym, ap, ◌∙◌, true, false, [], ◌∷◌, ◌++◌, arith,
  if◌then◌else◌, ◌==◌, ltb, all, all-halves, length, take, drop, replicate, all-append,
  length-append, length-replicate, take-append-drop, length-take, length-drop, take-append_length,
  drop-append_length, ℤ, pos, negsuc, neg, ok, ◌>>=◌, inl, inr, Result-cases, Bool-cases,
}
use atlas_erpbackend.Text.{Text, is_digit, trim, pad_start}
use atlas_erpbackend.Text.Decimal.{print, read, read-print, all-print, read-zeros}
use atlas_erpbackend.Text.Trim.{visible, point_visible, minus_visible, digits_visible, trim-visible}
use atlas_erpbackend.Money.Values.{Floats, string, Value}
use atlas_erpbackend.Money.Amount.{
  minor_of_parts, minor_of_text, minor_of_trimmed, starts_negative, strip_sign, format_minor,
  from_minor_units, to_minor_units, normalize_amount,
}
use atlas_erpbackend.Money.Amount.Shape.{
  pointed, split_0-pointed, split_1-pointed, strip_sign-unsigned, matches_amount-unsigned,
  matches_amount-negative,
}

all-zeros : (k : ℕ) → all is_digit (replicate k b'0') ≡ true
all-zeros zero = refl
all-zeros (suc k) = all-zeros k

padded : ℕ → ℕ → Text
padded scale a = pad_start (scale + 1) b'0' (print a)

module _ (scale a : ℕ) where
  all-padded : all is_digit (padded scale a) ≡ true
  unfolding padded
  all-padded =
      rw (all-append is_digit (replicate (scale + 1 - length (print a)) b'0') (print a))
        (rw (all-zeros (scale + 1 - length (print a))) (all-print a))

  length-padded : scale < length (padded scale a)
  unfolding padded
  length-padded =
      rw (length-append (replicate (scale + 1 - length (print a)) b'0') (print a))
        (rw length-replicate (omega arith))

  read-padded : read (padded scale a) ≡ a
  unfolding padded
  read-padded = read-zeros (scale + 1 - length (print a)) (print a) ∙ read-print a

-- With as many decimals as the scale has, no digit is dropped and none rounds.
minor_of_parts-exact :
    (scale : ℕ) (integer fraction : Text)
    → length fraction ≡ scale
    → minor_of_parts integer fraction scale ≡ read (integer ++ fraction)
unfolding minor_of_parts
minor_of_parts-exact scale integer fraction h =
    let one : scale + 1 - length fraction ≡ suc zero = omega arith in
    rw one (
      rw (take-append_length scale fraction (b'0' ∷ []) h)
        (rw (drop-append_length scale fraction (b'0' ∷ []) h) refl))

-- A sign, digits, a point and as many digits as the scale has are read as the number that the
-- digits spell.
minor_of_text-unsigned :
    (scale : ℕ) (integer fraction : Text)
    → 0 < length integer
    → all is_digit integer ≡ true
    → all is_digit fraction ≡ true
    → length fraction ≡ scale
    → minor_of_text (integer ++ pointed fraction) scale ≡ ok (pos (read (integer ++ fraction)))
unfolding minor_of_text starts_negative
minor_of_text-unsigned scale [] fraction some_digit h k e = absurd (omega arith)
minor_of_text-unsigned scale (c ∷ s) fraction some_digit h k e =
    let head : is_digit c ≡ true = ground arith in
    let digits : all is_digit s ≡ true = ground arith in
    let no_sign : (c == b'-') ≡ false = ground arith in
    rw (matches_amount-unsigned c s fraction head digits k) (
      rw (strip_sign-unsigned c s fraction head digits k) (
        rw (split_0-pointed (c ∷ s) fraction h) (
          rw (split_1-pointed (c ∷ s) fraction h k)
            (rw no_sign (rw (minor_of_parts-exact scale (c ∷ s) fraction e) refl)))))

minor_of_text-negative :
    (scale : ℕ) (integer fraction : Text)
    → 0 < length integer
    → all is_digit integer ≡ true
    → all is_digit fraction ≡ true
    → length fraction ≡ scale
    → minor_of_text (b'-' ∷ (integer ++ pointed fraction)) scale
      ≡ ok (neg (pos (read (integer ++ fraction))))
unfolding minor_of_text starts_negative strip_sign
minor_of_text-negative scale [] fraction some_digit h k e = absurd (omega arith)
minor_of_text-negative scale (c ∷ s) fraction some_digit h k e =
    let head : is_digit c ≡ true = ground arith in
    let digits : all is_digit s ≡ true = ground arith in
    rw (matches_amount-negative c s fraction head digits k) (
      rw (split_0-pointed (c ∷ s) fraction h) (
        rw (split_1-pointed (c ∷ s) fraction h k)
          (rw (minor_of_parts-exact scale (c ∷ s) fraction e) refl)))

abbrev cut_at : ℕ → ℕ → ℕ
cut_at scale a = length (padded scale a) - scale

abbrev integer_of : ℕ → ℕ → Text
integer_of scale a = take (cut_at scale a) (padded scale a)

abbrev fraction_of : ℕ → ℕ → Text
fraction_of scale a = drop (cut_at scale a) (padded scale a)

record Parts (scale a : ℕ) : Type 0 where
  some_digit : 0 < length (integer_of scale a)
  integer : all is_digit (integer_of scale a) ≡ true
  fraction : all is_digit (fraction_of scale a) ≡ true
  fits : length (fraction_of scale a) ≡ scale
  spells : read (integer_of scale a ++ fraction_of scale a) ≡ a

parts : (scale a : ℕ) → Parts scale a
parts scale a =
    let d = padded scale a in
    let cut = cut_at scale a in
    let long = length-padded scale a in
    let halves = all-halves is_digit cut d (all-padded scale a) in
    record {
      some_digit = omega (arith, length-take cut d (omega arith));
      integer = halves.0;
      fraction = halves.1;
      fits = omega (arith, length-drop cut d);
      spells = ap read (take-append-drop cut d) ∙ read-padded scale a;
    }

nil_of_length : (s : Text) → length s ≡ 0 → s ≡ []
nil_of_length [] h = refl
nil_of_length (c ∷ s) h = absurd (omega arith)

-- At scale 0 the printed fraction is dropped, and it is empty.
fraction_kept :
    (scale a : ℕ) → (if scale == 0 then [] else fraction_of scale a) ≡ fraction_of scale a
fraction_kept zero a = sym (nil_of_length (fraction_of zero a) (parts zero a).fits)
fraction_kept (suc scale) a = ground arith

format_minor-pos :
    (n scale : ℕ) → format_minor (pos n) scale ≡ integer_of scale n ++ pointed (fraction_of scale n)
unfolding format_minor padded
format_minor-pos n scale = ap (λ f. integer_of scale n ++ pointed f) (fraction_kept scale n)

not_zero : (n : ℕ) → (suc n == 0) ≡ false
not_zero n = ground arith

format_minor-negsuc :
    (n scale : ℕ)
    → format_minor (negsuc n) scale
      ≡ b'-' ∷ (integer_of scale (suc n) ++ pointed (fraction_of scale (suc n)))
unfolding format_minor padded
format_minor-negsuc n scale =
    rw (not_zero n)
      (ap (λ f. b'-' ∷ (integer_of scale (suc n) ++ pointed f)) (fraction_kept scale (suc n)))

neg_pos : (n : ℕ) → neg (pos (suc n)) ≡ negsuc n
unfolding neg
neg_pos n = ground arith

pointed-visible : (s : Text) → all is_digit s ≡ true → all visible (pointed s) ≡ true
pointed-visible [] h = refl
pointed-visible (c ∷ s) h = ground (arith, digits_visible (c ∷ s) h, point_visible)

print_visible :
    (scale a : ℕ) → all visible (integer_of scale a ++ pointed (fraction_of scale a)) ≡ true
print_visible scale a =
    let p = parts scale a in
    rw (all-append visible (integer_of scale a) (pointed (fraction_of scale a))) (
      rw (digits_visible (integer_of scale a) p.integer)
        (pointed-visible (fraction_of scale a) p.fraction))

minor_of_trimmed-text :
    (s t : Text) (scale : ℕ)
    → 0 < length s
    → minor_of_trimmed (s ++ t) scale ≡ minor_of_text (s ++ t) scale
minor_of_trimmed-text [] t scale h = absurd (omega arith)
minor_of_trimmed-text (c ∷ s) t scale h = refl

-- Reading a print, at any scale and for either sign.
pub minor-format : (m : ℤ) (scale : ℕ) → minor_of_trimmed (trim (format_minor m scale)) scale ≡ ok m
minor-format (pos n) scale =
    let p = parts scale n in
    let i = integer_of scale n in
    let f = fraction_of scale n in
    rw (format_minor-pos n scale) (
      rw (trim-visible (i ++ pointed f) (print_visible scale n)) (
        minor_of_trimmed-text i (pointed f) scale p.some_digit
        ∙ minor_of_text-unsigned scale i f p.some_digit p.integer p.fraction p.fits
        ∙ ap (λ k. ok (pos k)) p.spells))
minor-format (negsuc n) scale =
    let p = parts scale (suc n) in
    let i = integer_of scale (suc n) in
    let f = fraction_of scale (suc n) in
    rw (format_minor-negsuc n scale) (
      rw
        (trim-visible (b'-' ∷ (i ++ pointed f))
          (ground (arith, print_visible scale (suc n), minus_visible)))
        (minor_of_text-negative scale i f p.some_digit p.integer p.fraction p.fits
          ∙ ap (λ k. ok (neg (pos k))) p.spells
          ∙ ap ok (neg_pos n)))

scale_admitted : (scale : ℕ) → scale ≤ 12 → ltb 12 scale ≡ false
scale_admitted scale h = ground arith

-- Every amount is read back from its print at the same scale: `toMinorUnits` after
-- `fromMinorUnits` gives the amount.
pub to_minor_units-from_minor_units :
    (F : Floats) (m : ℤ) (scale : ℕ)
    → scale ≤ 12
    → (from_minor_units m scale >>= λ t. to_minor_units F (string t) scale) ≡ ok m
unfolding from_minor_units to_minor_units
to_minor_units-from_minor_units F m scale h = rw (scale_admitted scale h) (minor-format m scale)

pub to_minor_units-print :
    (F : Floats) (m : ℤ) (scale : ℕ) {t : Text}
    → from_minor_units m scale ≡ ok t
    → to_minor_units F (string t) scale ≡ ok m
unfolding from_minor_units to_minor_units
to_minor_units-print F m scale h = elim (Bool-cases (ltb 12 scale)) [
  | inl out ↦ cc (rw out at h)
  | inr in_range ↦ ground (arith, minor-format m scale)
]

-- A normalized amount is its own normal form.
pub normalize_amount_idem :
    (F : Floats) (v : Value F.Number) (scale : ℕ) {t : Text}
    → normalize_amount F v scale ≡ ok t
    → normalize_amount F (string t) scale ≡ ok t
unfolding normalize_amount
normalize_amount_idem F v scale h = elim (Result-cases (to_minor_units F v scale)) [
  | inl (m, e) ↦ let printed = rw e at h in rw (to_minor_units-print F m scale printed) printed
  | inr (x, e) ↦ cc (rw e at h)
]
