-- ===== src/Posting.antt =====
-- The double entry of a journal: modules/accounting/posting/validators/double-entry.validator.ts.
-- A line's amounts are the `number | string` of the source; `String(n)` of a number is a parameter,
-- as the numbers are. What is logged is not modelled.
pub mod Cents
pub mod Balance
use atlas_erpbackend.Prelude.{
  ◌+◌, ◌^◌, ◌-◌, ℤ, pos, Bool, true, false, not, ◌&&◌, ◌||◌, Option, none, some, List, [], ◌∷◌, all,
  length, ltb, leb_ℤ, ltb_ℤ, eqb_ℤ, ◌+ℤ◌, ◌==◌, leb, if◌then◌else◌, Result, ok, err, ◌>>=◌, ◌>>◌,
  throw_if,
}
use atlas_erpbackend.Text.{Text, is_digit}
use atlas_erpbackend.Money.Values.{Floats, Value, string, MoneyError}
use atlas_erpbackend.Money.Amount.{to_minor_units, digits_of, after_digits, is_nil}

-- The two forms of `number | string`.
pub data Amount (N : Type 0) : Type 0 where
  number : N → Amount N
  text : Text → Amount N

pub record JournalLineAmount (N : Type 0) : Type 0 where
  pub debit : Amount N
  pub credit : Amount N

-- The codes of the `BadRequestException`s, and what `toMinorUnits` could throw.
pub data PostingError : Type 0 where
  journal_too_few_lines invalid_journal_line unbalanced_journal : PostingError
  amount_error : MoneyError → PostingError

-- `(?:\.\d{1,2})?$`
abbrev pub matches_cents : Text → Bool
matches_cents [] = true
matches_cents (c ∷ s) = c == b'.' && all is_digit s && not (is_nil s) && leb (length s) 2

-- `CENT_AMOUNT.test`
unfoldable pub cent_amount : Text → Bool
cent_amount s = not (is_nil (digits_of s)) && matches_cents (after_digits s)

abbrev pub max_line_cents : ℤ
max_line_cents = pos (10 ^ 18 - 1)

module _ (F : Floats) (number_text : F.Number → Text) where
  open F use {Number}

  abbrev pub is_exact : Amount Number → Bool
  is_exact (text s) = true
  is_exact (number x) = F.is_finite x && not (F.greater (F.abs x) F.max_safe_integer)

  abbrev pub text_of : Amount Number → Text
  text_of (text s) = s
  text_of (number x) = number_text x

  -- `none` is the `null` of the source.
  unfoldable pub cents : Amount Number → Result MoneyError (Option ℤ)
  cents value =
      if not (is_exact value) || not (cent_amount (text_of value))
      then ok none
      else (to_minor_units F (string (text_of value)) 2 >>= λ amount.
          ok (if leb_ℤ amount max_line_cents then some amount else none))

  abbrev pub lift_amount {ℓ} : {A : Type ℓ} → Result MoneyError A → Result PostingError A
  lift_amount (ok a) = ok a
  lift_amount (err e) = err (amount_error e)

  -- The two amounts of a line, when it has one of them.
  unfoldable pub sides : Option ℤ → Option ℤ → Result PostingError (ℤ × ℤ)
  sides (some debit) (some credit) = do
    throw_if (eqb_ℤ debit (pos 0) && eqb_ℤ credit (pos 0)) invalid_journal_line
    throw_if (ltb_ℤ (pos 0) debit && ltb_ℤ (pos 0) credit) invalid_journal_line
    ok (debit, credit)
  sides _ _ = err invalid_journal_line

  unfoldable pub line_sides : JournalLineAmount Number → Result PostingError (ℤ × ℤ)
  line_sides line = do
    debit ← lift_amount (cents line.debit)
    credit ← lift_amount (cents line.credit)
    sides debit credit

  -- The loop over the lines, with its two totals.
  unfoldable pub add_lines : ℤ → ℤ → List (JournalLineAmount Number) → Result PostingError (ℤ × ℤ)
  add_lines total_debit total_credit [] = ok (total_debit, total_credit)
  add_lines total_debit total_credit (line ∷ lines) =
      line_sides line >>= λ s. add_lines (total_debit +ℤ s.0) (total_credit +ℤ s.1) lines

  unfoldable pub validate : List (JournalLineAmount Number) → Result PostingError (Unit {0})
  validate lines = do
    throw_if (ltb (length lines) 2) journal_too_few_lines
    totals ← add_lines (pos 0) (pos 0) lines
    throw_if (not (eqb_ℤ totals.0 totals.1)) unbalanced_journal
    ok tt
