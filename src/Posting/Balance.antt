-- ===== src/Posting/Balance.antt =====
-- What an accepted journal is.
use atlas_erpbackend.Prelude.{
  ◌↔◌, eq_of_parts, ℕ, zero, suc, ◌≤◌, ◌≡◌, refl, sym, ap, ◌∙◌, subst, ℤ, pos, negsuc, false, not,
  ◌&&◌, Option, none, some, List, [], ◌∷◌, map, length, ltb, ltb_ℤ, eqb_ℤ, ◌+ℤ◌, ◌≤ℤ◌, sum_ℤ,
  Result, ok, err, ◌>>=◌, >>=-ok, throw_if-ok, ok_injective, int_laws, arith, inl, inr, ◌⊎◌,
}
use atlas_erpbackend.Text.{Text}
use atlas_erpbackend.Money.Values.{Floats, MoneyError}
use atlas_erpbackend.Posting.{
  JournalLineAmount, PostingError, max_line_cents, cents, lift_amount, sides, line_sides, add_lines,
  validate,
}
use atlas_erpbackend.Posting.Cents.{cents-range}

module _ (F : Floats) (number_text : F.Number → Text) where
  open F use {Number}

  -- One side of a line has an amount, the other has nothing.
  abbrev pub OneSided : ℤ → ℤ → Type 0
  OneSided debit credit =
      ((pos 1 ≤ℤ debit) × (credit ≡ pos 0)) ⊎ ((debit ≡ pos 0) × (pos 1 ≤ℤ credit))

  pub record IsLine (line : JournalLineAmount Number) (s : ℤ × ℤ) : Type 0 where
    pub debit : cents F number_text line.debit ≡ ok (some s.0)
    pub credit : cents F number_text line.credit ≡ ok (some s.1)
    pub one : OneSided s.0 s.1
    pub fits : (s.0 ≤ℤ max_line_cents) × (s.1 ≤ℤ max_line_cents)

  abbrev pub EachLine : List (JournalLineAmount Number) → List (ℤ × ℤ) → Type 0
  EachLine [] [] = Unit
  EachLine (line ∷ lines) (s ∷ ss) = IsLine line s × EachLine lines ss
  EachLine _ _ = ⊥

  abbrev pub debits : List (ℤ × ℤ) → ℤ
  debits ss = sum_ℤ (map (λ s. s.0) ss)

  abbrev pub credits : List (ℤ × ℤ) → ℤ
  credits ss = sum_ℤ (map (λ s. s.1) ss)

  one_sided :
      (debit credit : ℤ)
      → pos 0 ≤ℤ debit
      → pos 0 ≤ℤ credit
      → (eqb_ℤ debit (pos 0) && eqb_ℤ credit (pos 0)) ≡ false
      → (ltb_ℤ (pos 0) debit && ltb_ℤ (pos 0) credit) ≡ false
      → OneSided debit credit
  one_sided (pos zero) (pos zero) a b h k = cc
  one_sided (pos zero) (pos (suc c)) a b h k = inr (refl, omega arith)
  one_sided (pos (suc d)) (pos zero) a b h k = inl (omega arith, refl)
  one_sided (pos (suc d)) (pos (suc c)) a b h k = absurd (both d c k)
    where
      both : (m n : ℕ) → (ltb_ℤ (pos 0) (pos (suc m)) && ltb_ℤ (pos 0) (pos (suc n))) ≡ false → ⊥
      both m n e = ground arith
  one_sided (pos d) (negsuc c) a b h k = absurd (omega arith)
  one_sided (negsuc d) credit a b h k = absurd (omega arith)

  passes :
      (debit credit : ℤ)
      → OneSided debit credit
      → ((eqb_ℤ debit (pos 0) && eqb_ℤ credit (pos 0)) ≡ false)
        × ((ltb_ℤ (pos 0) debit && ltb_ℤ (pos 0) credit) ≡ false)
  passes debit credit (inl (a, b)) = rw b (ground arith)
  passes debit credit (inr (a, b)) = rw a (ground arith)

  -- What `sides` accepts, of two amounts that were read.
  sides-ok :
      (debit credit : Option ℤ) {s : ℤ × ℤ}
      → sides F number_text debit credit ≡ ok s
      → (debit ≡ some s.0)
        × (credit ≡ some s.1)
        × ((eqb_ℤ s.0 (pos 0) && eqb_ℤ s.1 (pos 0)) ≡ false)
        × ((ltb_ℤ (pos 0) s.0 && ltb_ℤ (pos 0) s.1) ≡ false)
  unfolding sides
  sides-ok (some d) (some c) h =
      let (nonzero, h1) = throw_if-ok _ _ _ h in
      let (single, h2) = throw_if-ok _ _ _ h1 in
      subst
        (λ s.
          (some d ≡ some s.0)
          × (some c ≡ some s.1)
          × ((eqb_ℤ s.0 (pos 0) && eqb_ℤ s.1 (pos 0)) ≡ false)
          × ((ltb_ℤ (pos 0) s.0 && ltb_ℤ (pos 0) s.1) ≡ false))
        (ok_injective h2) (refl, refl, nonzero, single)
  sides-ok (some d) none h = cc
  sides-ok none c h = cc

  lift_amount-ok :
      {A B : Type 0} (r : Result MoneyError A) (f : A → Result PostingError B) {b : B}
      → (lift_amount F number_text r >>= f) ≡ ok b
      → (a : A) × (r ≡ ok a) × (f a ≡ ok b)
  lift_amount-ok (ok a) f h = (a, refl, h)
  lift_amount-ok (err e) f h = cc

  line_sides-IsLine :
      (line : JournalLineAmount Number) {s : ℤ × ℤ}
      → line_sides F number_text line ≡ ok s
      → IsLine line s
  unfolding line_sides
  line_sides-IsLine line {s} h =
      let (d, d_read, h1) = lift_amount-ok (cents F number_text line.debit) _ h in
      let (c, c_read, h2) = lift_amount-ok (cents F number_text line.credit) _ h1 in
      let (d_some, c_some, nonzero, single) = sides-ok d c h2 in
      let debit = d_read ∙ ap ok d_some in
      let credit = c_read ∙ ap ok c_some in
      let (d_low, d_high) = cents-range F number_text line.debit debit in
      let (c_low, c_high) = cents-range F number_text line.credit credit in
      record {
        debit = debit;
        credit = credit;
        one = one_sided s.0 s.1 d_low c_low nonzero single;
        fits = (d_high, c_high);
      }

  line_sides-of :
      (line : JournalLineAmount Number) (s : ℤ × ℤ)
      → IsLine line s
      → line_sides F number_text line ≡ ok s
  unfolding line_sides sides
  line_sides-of line s h =
      let (nonzero, single) = passes s.0 s.1 h.one in rw (h.debit, h.credit, nonzero, single) refl

  add_lines-EachLine :
      (a b : ℤ) (lines : List (JournalLineAmount Number)) {totals : ℤ × ℤ}
      → add_lines F number_text a b lines ≡ ok totals
      → (ss : List (ℤ × ℤ)) × EachLine lines ss
        × (totals.0 ≡ a +ℤ debits ss)
        × (totals.1 ≡ b +ℤ credits ss)
  unfolding add_lines
  add_lines-EachLine a b [] h = (
    [],
    tt,
    subst (λ t. t.0 ≡ a +ℤ pos 0) (ok_injective h) (omega int_laws),
    subst (λ t. t.1 ≡ b +ℤ pos 0) (ok_injective h) (omega int_laws),
  )
  add_lines-EachLine a b (line ∷ lines) {totals} h =
      let (s, read, h1) = >>=-ok (line_sides F number_text line) _ h in
      let (ss, each, d, c) = add_lines-EachLine (a +ℤ s.0) (b +ℤ s.1) lines h1 in
      (
        s ∷ ss,
        (line_sides-IsLine line read, each),
        d ∙ assoc a s.0 (debits ss),
        c ∙ assoc b s.1 (credits ss),
      )
    where
      assoc : (x y z : ℤ) → x +ℤ y +ℤ z ≡ x +ℤ (y +ℤ z)
      assoc x y z = omega int_laws

  add_lines-of :
      (a b : ℤ) (lines : List (JournalLineAmount Number)) (ss : List (ℤ × ℤ))
      → EachLine lines ss
      → add_lines F number_text a b lines ≡ ok (a +ℤ debits ss, b +ℤ credits ss)
  unfolding add_lines
  add_lines-of a b [] [] h = ap ok (rw (zero_right a, zero_right b) refl)
    where
      zero_right : (x : ℤ) → x +ℤ pos 0 ≡ x
      zero_right x = omega int_laws
  add_lines-of a b [] (s ∷ ss) h = absurd h
  add_lines-of a b (line ∷ lines) [] h = absurd h
  add_lines-of a b (line ∷ lines) (s ∷ ss) (h, hs) = rw (line_sides-of line s h) (
      add_lines-of (a +ℤ s.0) (b +ℤ s.1) lines ss hs
      ∙ rw (assoc a s.0 (debits ss), assoc b s.1 (credits ss)) refl)
    where
      assoc : (x y z : ℤ) → x +ℤ y +ℤ z ≡ x +ℤ (y +ℤ z)
      assoc x y z = omega int_laws

  pub record IsDoubleEntry (lines : List (JournalLineAmount Number)) : Type 0 where
    pub enough : 2 ≤ length lines
    pub sides : List (ℤ × ℤ)
    pub each : EachLine lines sides
    pub balanced : debits sides ≡ credits sides

  validate-IsDoubleEntry :
      (lines : List (JournalLineAmount Number))
      → validate F number_text lines ≡ ok tt
      → IsDoubleEntry lines
  unfolding validate
  validate-IsDoubleEntry lines h =
      let (enough, h1) = throw_if-ok _ _ _ h in
      let (totals, added, h2) = >>=-ok (add_lines F number_text (pos 0) (pos 0) lines) _ h1 in
      let (equal, h3) = throw_if-ok _ _ _ h2 in
      let (ss, each, d, c) = add_lines-EachLine (pos 0) (pos 0) lines added in
      record {
        enough = at_least (length lines) enough;
        sides = ss;
        each = each;
        balanced = balance totals.0 totals.1 (debits ss) (credits ss) equal d c;
      }
    where
      at_least : (n : ℕ) → ltb n 2 ≡ false → 2 ≤ n
      at_least n e = ground arith

      same : (x y : ℤ) → not (eqb_ℤ x y) ≡ false → x ≡ y
      same x y e = ground (arith, eq_of_parts x y)

      zero_left : (x : ℤ) → pos 0 +ℤ x ≡ x
      zero_left x = omega int_laws

      balance : (x y d c : ℤ) → not (eqb_ℤ x y) ≡ false → x ≡ pos 0 +ℤ d → y ≡ pos 0 +ℤ c → d ≡ c
      balance x y d c e h k = sym (zero_left d) ∙ sym h ∙ same x y e ∙ k ∙ zero_left c

  IsDoubleEntry-validate :
      (lines : List (JournalLineAmount Number))
      → IsDoubleEntry lines
      → validate F number_text lines ≡ ok tt
  unfolding validate
  IsDoubleEntry-validate lines h =
      rw
        (
          few (length lines) h.enough,
          add_lines-of (pos 0) (pos 0) lines h.sides h.each,
          h.balanced,
          same (credits h.sides),
        )
        refl
    where
      few : (n : ℕ) → 2 ≤ n → ltb n 2 ≡ false
      few n e = ground arith

      same : (x : ℤ) → not (eqb_ℤ (pos 0 +ℤ x) (pos 0 +ℤ x)) ≡ false
      same x = ground arith

  -- The validator accepts exactly the double entries: at least two lines, each of them with an amount
  -- of at most 18 digits of cents on one side and nothing on the other, whose debits and credits have
  -- the same sum.
  pub validate_iff :
      (lines : List (JournalLineAmount Number))
      → (validate F number_text lines ≡ ok tt) ↔ IsDoubleEntry lines
  validate_iff lines = (validate-IsDoubleEntry lines, IsDoubleEntry-validate lines)
