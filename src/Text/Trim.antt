-- ===== src/Text/Trim.antt =====
-- Texts that the `String` methods leave as they are.
use atlas_erpbackend.Prelude.{ℕ, ◌≡◌, refl, Bool, true, false, not, [], ◌∷◌, ◌++◌, arith, ◌==◌, all}
use atlas_erpbackend.Text.{Text, is_digit, is_space, trim_start, trim_end, trim, before, after}

abbrev pub visible : ℕ → Bool
visible c = not (is_space c)

pub digit_visible : (c : ℕ) → is_digit c ≡ true → visible c ≡ true
unfolding is_space
digit_visible c h = ground arith

pub digits_visible : (s : Text) → all is_digit s ≡ true → all visible s ≡ true
digits_visible [] h = refl
digits_visible (c ∷ s) h = ground (arith, digit_visible c, digits_visible s)

pub point_visible : visible b'.' ≡ true
unfolding is_space
point_visible = refl

pub minus_visible : visible b'-' ≡ true
unfolding is_space
minus_visible = refl

trim_start-visible : (s : Text) → all visible s ≡ true → trim_start s ≡ s
trim_start-visible [] h = refl
trim_start-visible (c ∷ s) h = ground arith

trim_end-visible : (s : Text) → all visible s ≡ true → trim_end s ≡ s
trim_end-visible [] h = refl
trim_end-visible (c ∷ s) h = ground (arith, trim_end-visible s)

-- `trim` takes nothing from a text with no white space.
pub trim-visible : (s : Text) → all visible s ≡ true → trim s ≡ s
unfolding trim
trim-visible s h = rw (trim_start-visible s h) (trim_end-visible s h)

module _ (d : ℕ) (p : ℕ → Bool) (differs : (c : ℕ) → p c ≡ true → (c == d) ≡ false) where
  pub before-append : (s t : Text) → all p s ≡ true → before d (s ++ t) ≡ s ++ before d t
  before-append [] t h = refl
  before-append (c ∷ s) t h = ground (arith, differs c, before-append s t)

  pub after-append : (s t : Text) → all p s ≡ true → after d (s ++ t) ≡ after d t
  after-append [] t h = refl
  after-append (c ∷ s) t h = ground (arith, differs c, after-append s t)
