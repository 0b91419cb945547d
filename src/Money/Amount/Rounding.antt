-- ===== src/Money/Amount/Rounding.antt =====
-- What `toMinorUnits` makes of the digits: the nearest amount at the scale, half a unit up.
use atlas_erpbackend.Prelude.{
  ℕ, suc, ◌+◌, ◌-◌, ◌*◌, ◌^◌, ◌≤◌, ◌<◌, ◌≡◌, refl, sym, ap, ◌∙◌, true, false, ◌&&◌, [], ◌∷◌, ◌++◌,
  arith, if◌then◌else◌, leb, all, length, take, drop, replicate, take-append-drop,
  take-append_length, drop-append_length, length-drop, length-append, length-replicate, append-nil,
  append_assoc, ◌⊎◌, inl, inr, all-halves, any,
}
use atlas_erpbackend.Text.{Text, is_digit}
use atlas_erpbackend.Text.Decimal.{read, read_from_shift, read_from-append_shift, read_bound}
use atlas_erpbackend.Text.Scale.{replicate-snoc, read_no_digit, read-append_zeros}
use atlas_erpbackend.Money.Amount.{minor_of_parts, rounds_up}
use native.Mathlib.Nat.{pow-suc}

-- A fraction that fits the scale is padded with zeros, and nothing is rounded.
pub minor_of_parts_fits :
    (integer fraction : Text) (scale k : ℕ)
    → length fraction + k ≡ scale
    → minor_of_parts integer fraction scale ≡ read (integer ++ fraction) * 10 ^ k
unfolding minor_of_parts
minor_of_parts_fits integer fraction scale k h =
    let zeros : Text = replicate k b'0' in
    let zero_digit : ℕ = b'0' in
    let missing : scale + 1 - length fraction ≡ suc k = omega arith in
    let padding : fraction ++ replicate (suc k) b'0' ≡ (fraction ++ zeros) ++ b'0' ∷ [] =
      ap (λ s. fraction ++ s) (replicate-snoc k b'0')
      ∙ sym (append_assoc fraction zeros (b'0' ∷ [])) in
    let long : length (fraction ++ zeros) ≡ scale =
      omega (arith, length-append fraction zeros, length-replicate k zero_digit) in
    rw (missing, padding)
      (rw (take-append_length scale (fraction ++ zeros) (b'0' ∷ []) long) (
        rw (drop-append_length scale (fraction ++ zeros) (b'0' ∷ []) long) (
          ap read (sym (append_assoc integer fraction zeros))
          ∙ read-append_zeros (integer ++ fraction) k)))

-- The nearest multiple of `p`, upwards at a tie.
abbrev pub IsHalfUp : ℕ → ℕ → ℕ → Type 0
IsHalfUp m n p = (2 * (m * p) ≤ 2 * n + p) × (2 * n < 2 * (m * p) + p)

times_le : (a b p : ℕ) → a ≤ b → a * p ≤ b * p
times_le a b p h = grind arith

IsHalfUp-digit :
    (m d p r : ℕ)
    → r < p
    → d ≤ 9
    → IsHalfUp (if leb 5 d then m + 1 else m) (m * (p * 10) + (d * p + r)) (p * 10)
IsHalfUp-digit m d p r h k = elim (five_up d) [
  | inl (e, up) ↦ rw e (omega (arith, times_le 5 d p up, times_le d 9 p k, next_unit))
  | inr (e, down) ↦ rw e (omega (arith, times_le d 4 p down))
]
  where
    next_unit : (m + 1) * (p * 10) ≡ m * (p * 10) + p * 10
    next_unit = omega arith

    five_up : (x : ℕ) → ((leb 5 x ≡ true) × (5 ≤ x)) ⊎ ((leb 5 x ≡ false) × (x ≤ 4))
    five_up x = ground arith

-- The digits below the scale decide the last unit.
half_rule :
    (s : Text) (m : ℕ)
    → 0 < length s
    → all is_digit s ≡ true
    → IsHalfUp (if rounds_up s then m + 1 else m) (m * 10 ^ length s + read s) (10 ^ length s)
half_rule [] m h d = absurd (omega arith)
half_rule (c ∷ s) m h d =
    let digit : c - b'0' ≤ 9 = ground arith in
    let bound : read s < 10 ^ length s = read_bound s (ground arith) in
    let test : leb b'5' c ≡ leb 5 (0 + (c - b'0')) = ground arith in
    rw (test, pow-suc, read_from_shift (0 + (c - b'0')) s)
      (IsHalfUp-digit m (0 + (c - b'0')) (10 ^ length s) (read s) bound (omega arith))

module _ (integer fraction : Text) (scale : ℕ) (h : scale < length fraction) where
  abbrev kept_digits : Text
  kept_digits = take scale fraction

  abbrev cut_digits : Text
  cut_digits = drop scale fraction

  cut_form : minor_of_parts integer fraction scale ≡ (
      if rounds_up cut_digits
      then read (integer ++ kept_digits) + 1
      else read (integer ++ kept_digits))
  unfolding minor_of_parts
  cut_form =
      let no_padding : scale + 1 - length fraction ≡ 0 = omega arith in
      rw (no_padding, append-nil fraction)

  pub length-cut_digits : length cut_digits ≡ length fraction - scale
  length-cut_digits = length-drop scale fraction

  read-cut :
      read (integer ++ fraction)
      ≡ read (integer ++ kept_digits) * 10 ^ length cut_digits + read cut_digits
  read-cut =
      ap (λ s. read (integer ++ s)) (sym (take-append-drop scale fraction))
      ∙ ap read (sym (append_assoc integer kept_digits cut_digits))
      ∙ read_from-append_shift 0 (integer ++ kept_digits) cut_digits

  -- A fraction of digits that is longer than the scale is rounded half up: the amount is the nearest
  -- to the whole number written, the greater one at a tie.
  pub minor_of_parts_cut :
      all is_digit fraction ≡ true
      → IsHalfUp
          (minor_of_parts integer fraction scale)
          (read (integer ++ fraction))
          (10 ^ (length fraction - scale))
  minor_of_parts_cut decimals =
      rw (cut_form, read-cut, ← length-cut_digits)
        (half_rule cut_digits (read (integer ++ kept_digits)) (omega (arith, length-cut_digits))
          (all-halves is_digit scale fraction decimals).1)

  no_round_up :
      (s : Text)
      → any (λ c. leb b'1' c && leb c b'9') s ≡ false
      → all is_digit s ≡ true
      → rounds_up s ≡ false
  no_round_up [] k d = refl
  no_round_up (c ∷ s) k d = ground arith

  -- Where the cut digits are zeros, nothing is lost.
  pub minor_of_parts_cut_zeros :
      all is_digit fraction ≡ true
      → any (λ c. leb b'1' c && leb c b'9') cut_digits ≡ false
      → minor_of_parts integer fraction scale * 10 ^ (length fraction - scale)
        ≡ read (integer ++ fraction)
  minor_of_parts_cut_zeros decimals zeros =
      let digits = (all-halves is_digit scale fraction decimals).1 in
      let nought = read_no_digit cut_digits digits zeros in
      rw (cut_form, read-cut, ← length-cut_digits, no_round_up cut_digits zeros digits, nought)
        (omega arith)
