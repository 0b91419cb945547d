-- ===== src/Posting/Cents.antt =====
-- The range of the amounts that `cents` reads.
use atlas_erpbackend.Prelude.{
  ℕ, neg, ◌≡◌, refl, ap, ◌∙◌, subst, ℤ, pos, Bool, true, false, not, ◌&&◌, ◌||◌, Option, none, some,
  [], ◌∷◌, all, leb_ℤ, ◌≤ℤ◌, if◌then◌else◌, Result, ok, ◌>>=◌, >>=-ok, throw_if-ok, ok_injective,
  arith,
}
use atlas_erpbackend.Text.{Text}
use atlas_erpbackend.Text.Trim.{visible, digit_visible, digits_visible, point_visible, trim-visible}
use atlas_erpbackend.Money.Values.{Floats, string, MoneyError}
use atlas_erpbackend.Money.Amount.{
  to_minor_units, digits_of, after_digits, is_nil, minor_of_text, minor_of_trimmed, starts_negative,
}
use atlas_erpbackend.Posting.{
  Amount, matches_cents, cent_amount, max_line_cents, is_exact, text_of, cents,
}

cents-visible : (u : Text) → matches_cents u ≡ true → all visible u ≡ true
cents-visible [] h = refl
cents-visible (c ∷ s) h = ground (arith, digits_visible s, point_visible)

after_digits-visible : (s : Text) → all visible (after_digits s) ≡ true → all visible s ≡ true
after_digits-visible [] h = refl
after_digits-visible (c ∷ s) h = ground (arith, digit_visible c, after_digits-visible s)

cent_amount-visible : (s : Text) → cent_amount s ≡ true → all visible s ≡ true
unfolding cent_amount
cent_amount-visible s h =
    after_digits-visible s
      (cents-visible (after_digits s) (second (not (is_nil (digits_of s))) _ h))
  where
    second : (a b : Bool) → (a && b) ≡ true → b ≡ true
    second true b k = k
    second false b k = cc

cent_amount-starts : (s : Text) → cent_amount s ≡ true → starts_negative s ≡ false
unfolding cent_amount starts_negative
cent_amount-starts [] h = cc
cent_amount-starts (c ∷ s) h = ground arith

pub none-some : {x : ℤ} → none ≡ some x → ⊥
none-some e = cc

module _ (F : Floats) (number_text : F.Number → Text) where
  open F use {Number}

  minor_of_trimmed-nonneg :
      (s : Text) {m : ℤ} → starts_negative s ≡ false → minor_of_trimmed s 2 ≡ ok m → pos 0 ≤ℤ m
  unfolding minor_of_text
  minor_of_trimmed-nonneg [] h k = subst (λ x. pos 0 ≤ℤ x) (ok_injective k) (omega arith)
  minor_of_trimmed-nonneg (c ∷ s) {m} h k =
      let (shape, k1) = throw_if-ok _ _ _ k in
      signed (starts_negative (c ∷ s)) _ h (ok_injective k1)
    where
      signed : (b : Bool) (n : ℕ) → b ≡ false → (if b then neg (pos n) else pos n) ≡ m → pos 0 ≤ℤ m
      signed true n e k = cc
      signed false n e k = subst (λ x. pos 0 ≤ℤ x) k (omega arith)

  to_minor_units-nonneg :
      (s : Text) {m : ℤ} → cent_amount s ≡ true → to_minor_units F (string s) 2 ≡ ok m → pos 0 ≤ℤ m
  unfolding to_minor_units
  to_minor_units-nonneg s {m} h k =
      minor_of_trimmed-nonneg s (cent_amount-starts s h)
        (subst (λ t. minor_of_trimmed t 2 ≡ ok m) (trim-visible s (cent_amount-visible s h)) k)

  some_if-true :
      (b : Bool) (a : ℤ) {m : ℤ}
      → ◌≡◌ {A = Result MoneyError (Option ℤ)} (ok (if b then some a else none)) (ok (some m))
      → (b ≡ true) × (a ≡ m)
  some_if-true true a h = (refl, some_injective (ok_injective h))
    where
      some_injective : {x y : ℤ} → some x ≡ some y → x ≡ y
      some_injective e = cc
  some_if-true false a h = absurd (none-some (ok_injective h))

  -- What `cents` gives when it gives an amount.
  cents-steps :
      (value : Amount Number) {m : ℤ} (refused : Bool)
      → (if refused
          then ok none
          else (to_minor_units F (string (text_of F number_text value)) 2 >>= λ amount.
              ok (if leb_ℤ amount max_line_cents then some amount else none)))
        ≡ ok (some m)
      → (refused ≡ false)
        × (to_minor_units F (string (text_of F number_text value)) 2 ≡ ok m)
        × (leb_ℤ m max_line_cents ≡ true)
  cents-steps value true h = absurd (none-some (ok_injective h))
  cents-steps value {m} false h =
      let (amount, read, h1) =
        >>=-ok (to_minor_units F (string (text_of F number_text value)) 2) _ h in
      let (fits, same) = some_if-true (leb_ℤ amount max_line_cents) amount h1 in
      (refl, read ∙ ap ok same, subst (λ x. leb_ℤ x max_line_cents ≡ true) same fits)

  -- An amount that `cents` gives is not negative and fits the column.
  pub cents-range :
      (value : Amount Number) {m : ℤ}
      → cents F number_text value ≡ ok (some m)
      → (pos 0 ≤ℤ m) × (m ≤ℤ max_line_cents)
  unfolding cents
  cents-range value {m} h =
      let (kept, read, fits) =
        cents-steps value
          (not (is_exact F number_text value) || not (cent_amount (text_of F number_text value)))
          h in
      (
        to_minor_units-nonneg (text_of F number_text value)
            (matched (not (is_exact F number_text value)) _ kept) read,
        below m fits,
      )
    where
      matched : (a b : Bool) → (a || not b) ≡ false → b ≡ true
      matched a b e = ground arith

      below : (x : ℤ) → leb_ℤ x max_line_cents ≡ true → x ≤ℤ max_line_cents
      below x e = ground arith
