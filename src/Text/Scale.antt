-- ===== src/Text/Scale.antt =====
-- Digits with zeros behind them, and powers of ten.
use atlas_erpbackend.Prelude.{
  ℕ, zero, suc, ◌+◌, ◌-◌, ◌*◌, ◌^◌, ◌≡◌, refl, ap, ◌∙◌, sym, true, false, ◌&&◌, [], ◌∷◌, ◌++◌,
  arith, leb, all, any, replicate, length-replicate, append-nil,
}
use atlas_erpbackend.Text.{Text, is_digit}
use atlas_erpbackend.Text.Decimal.{read, read_from-append_shift, read-zeros}
use native.Mathlib.Nat.{pow-suc}

pub power-add : (a b : ℕ) → 10 ^ (a + b) ≡ 10 ^ a * 10 ^ b
power-add a zero = ground arith
power-add a (suc b) =
    let e : a + suc b ≡ suc (a + b) = omega arith in
    rw e (rw (pow-suc, pow-suc, power-add a b) (omega arith))

pub replicate-snoc : (k c : ℕ) → replicate (suc k) c ≡ replicate k c ++ c ∷ []
replicate-snoc zero c = refl
replicate-snoc (suc k) c = ap (λ s. c ∷ s) (replicate-snoc k c)

pub read-append_zeros : (s : Text) (k : ℕ) → read (s ++ replicate k b'0') ≡ read s * 10 ^ k
read-append_zeros s k =
    let zeros : read (replicate k b'0') ≡ 0 =
      ap read (sym (append-nil (replicate k b'0'))) ∙ read-zeros k [] in
    read_from-append_shift 0 s (replicate k b'0') ∙ rw (zeros, length-replicate) (omega arith)

pub read_no_digit :
    (s : Text) → all is_digit s ≡ true → any (λ c. leb b'1' c && leb c b'9') s ≡ false → read s ≡ 0
read_no_digit [] h k = refl
read_no_digit (c ∷ s) h k =
    let nought : 0 + (c - b'0') ≡ 0 = ground arith in
    rw nought (read_no_digit s (ground arith) (ground arith))
