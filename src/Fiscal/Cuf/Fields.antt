-- ===== src/Fiscal/Cuf/Fields.antt =====
-- The parts of the text that calcularCuf computes a code from.
use atlas_erpbackend.Prelude.{
  ℕ, zero, suc, ◌+◌, ◌-◌, ◌≡◌, refl, sym, ap, ◌∙◌, subst, Bool, true, false, not, ◌&&◌, ◌||◌, [],
  ◌∷◌, ◌++◌, ℤ, pos, negsuc, arith, ltb, ◌==◌, if◌then◌else◌, length, length-append,
  length-replicate, replicate, all, all-append, keep, ok, throw_if-ok, ok_injective,
}
use mathlib.Core.Bool.{true≢false}
use atlas_erpbackend.Text.{Text, is_digit, trim, pad_start}
use atlas_erpbackend.Text.Decimal.{print, read, read-print, all-print, read-zeros}
use atlas_erpbackend.Text.Trim.{trim-visible, digits_visible, minus_visible, visible}
use atlas_erpbackend.Money.Values.{print_ℤ}
use atlas_erpbackend.Money.Amount.{is_nil}
use atlas_erpbackend.Fiscal.Cuf.{
  FieldValue, number, cuf_input_error, text_of, matches_pattern, groups, relleno,
}

-- Two texts whose heads have the same length have the same parts.
pub append_injective : (s t u v : Text) → length s ≡ length u → s ++ t ≡ u ++ v → (s ≡ u) × (t ≡ v)
append_injective [] t [] v l e = (refl, e)
append_injective [] t (d ∷ u) v l e = absurd (omega arith)
append_injective (c ∷ s) t [] v l e = absurd (omega arith)
append_injective (c ∷ s) t (d ∷ u) v l e =
    let (heads, tails) = append_injective s t u v (omega arith) (cc) in (cc, tails)

-- Digits of a given number, that spell the number of a field.
abbrev pub number_of : FieldValue → ℕ
number_of valor = read (trim (text_of valor))

pub record IsPadded (valor : FieldValue) (ancho : ℕ) (t : Text) : Type 0 where
  pub width : length t ≡ ancho
  pub digits : all is_digit t ≡ true
  pub spells : read t ≡ number_of valor
  pub plain : all is_digit (trim (text_of valor)) ≡ true

all-zeros : (n : ℕ) → all is_digit (replicate n b'0') ≡ true
all-zeros zero = refl
all-zeros (suc n) = all-zeros n

padded :
    (b : Bool) (ancho : ℕ) (s : Text)
    → ((b || not (all is_digit s)) || ltb ancho (length s)) ≡ false
    → (length (pad_start ancho b'0' s) ≡ ancho)
      × (all is_digit (pad_start ancho b'0' s) ≡ true)
      × (all is_digit s ≡ true)
padded b ancho s fits =
    let zeros : Text = replicate (ancho - length s) b'0' in
    let digits : all is_digit s ≡ true = ground arith in
    (
      length-append zeros s ∙ rw (length-replicate {A = ℕ} (ancho - length s) b'0') (ground arith),
      all-append is_digit zeros s ∙ rw (all-zeros (ancho - length s), digits) refl,
      digits,
    )

pub relleno-IsPadded :
    (campo : Text) (valor : FieldValue) (ancho : ℕ) {t : Text}
    → relleno campo valor ancho ≡ ok t
    → IsPadded valor ancho t
unfolding relleno
relleno-IsPadded campo valor ancho h =
    let texto = trim (text_of valor) in
    let (fits, made) =
      throw_if-ok ((is_nil texto || not (all is_digit texto)) || ltb ancho (length texto))
        (cuf_input_error campo) _ h in
    let (width, digits, plain) = padded (is_nil texto) ancho texto fits in
    subst (IsPadded valor ancho) (ok_injective made) (record {
      width = width;
      digits = digits;
      spells = read-zeros (ancho - length texto) texto;
      plain = plain;
    })

-- A number that prints as digits is the one they spell.
pub number-number_of :
    (z : ℤ) → all is_digit (trim (text_of (number z))) ≡ true → z ≡ pos (number_of (number z))
unfolding print_ℤ
number-number_of (pos n) h = ap pos (
    sym (read-print n)
    ∙ ap read (sym (trim-visible (print n) (digits_visible (print n) (all-print n)))))
number-number_of (negsuc n) h = absurd (no_minus (trim-visible (b'-' ∷ print (n + 1)) signed))
  where
    signed : all visible (b'-' ∷ print (n + 1)) ≡ true
    signed = rw (minus_visible, digits_visible (print (n + 1)) (all-print (n + 1))) refl

    no_minus : trim (b'-' ∷ print (n + 1)) ≡ b'-' ∷ print (n + 1) → ⊥
    no_minus e = true≢false (sym (sym (ap (all is_digit) e) ∙ h))

pub groups-digits :
    (ps s : Text)
    → matches_pattern ps s ≡ true
    → (length (groups ps s) ≡ length (keep (λ p. p == b'd') ps))
      × (all is_digit (groups ps s) ≡ true)
groups-digits [] [] h = (refl, refl)
groups-digits [] (c ∷ s) h = cc
groups-digits (p ∷ ps) [] h = cc
groups-digits (p ∷ ps) (c ∷ s) h = ground (arith, groups-digits ps s)

pub groups_injective :
    (ps s t : Text)
    → matches_pattern ps s ≡ true
    → matches_pattern ps t ≡ true
    → groups ps s ≡ groups ps t
    → s ≡ t
groups_injective [] [] [] h k e = refl
groups_injective [] (c ∷ s) t h k e = cc
groups_injective [] [] (d ∷ t) h k e = cc
groups_injective (p ∷ ps) [] t h k e = cc
groups_injective (p ∷ ps) (c ∷ s) [] h k e = cc
groups_injective (p ∷ ps) (c ∷ s) (d ∷ t) h k e =
    let (heads, tails) = parts (p == b'd') h k e in
    ap (λ x. x ∷ s) heads
    ∙ ap (λ u. d ∷ u) (groups_injective ps s t (ground arith) (ground arith) tails)
  where
    parts :
        (b : Bool)
        → ((if b then is_digit c else c == p) && matches_pattern ps s) ≡ true
        → ((if b then is_digit d else d == p) && matches_pattern ps t) ≡ true
        → (if b then c ∷ groups ps s else groups ps s)
          ≡ (if b then d ∷ groups ps t else groups ps t)
        → (c ≡ d) × (groups ps s ≡ groups ps t)
    parts true h k e = (cc, cc)
    parts false h k e = (ground arith, e)
