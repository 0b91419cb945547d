-- ===== src/Billing/Invoice.antt =====
-- The parts of an invoice add up.
use atlas_erpbackend.Prelude.{
  ◌≡◌, refl, sym, ap, ◌∙◌, List, [], ◌∷◌, map, some, ℤ, pos, ◌+ℤ◌, sum_ℤ, int_laws, length, Result,
  ok, err, ◌>>=◌, throw_if-ok, >>=-ok, ok_injective, subst, map_ok-append_step,
}
use atlas_erpbackend.Text.{Text}
use atlas_erpbackend.Money.Values.{Floats, Value, string, MoneyError}
use atlas_erpbackend.Money.Amount.{to_minor_units, format_minor}
use atlas_erpbackend.Money.Amount.RoundTrip.{minor-format}
use atlas_erpbackend.Money.Division.{
  sum_minor, allocate_proportionally, apply_rate_percent, money_rounding_mode,
}
use atlas_erpbackend.Money.Exact.{parse_money, parse_rate_percent, positive_amount}
use atlas_erpbackend.Money.Division.Shares.{sum_minor_lem, allocate_proportionally_exact}
use atlas_erpbackend.Billing.Rules.{
  InvoiceableCharge, InvoiceUnits, InvoiceLine, InvoiceTotals, BillingError, lift_money,
  invoice_units, compute_invoice_totals, single_currency, parse_nets, print_lines, print_totals,
}

lift_money-ok :
    {A B : Type 0} (r : Result MoneyError A) (f : A → Result BillingError B) {b : B}
    → (lift_money r >>= f) ≡ ok b
    → (a : A) × (r ≡ ok a) × (f a ≡ ok b)
lift_money-ok (ok a) f h = (a, refl, h)
lift_money-ok (err e) f h = cc

module _ (F : Floats) where
  -- A printed amount reads as this number of cents.
  abbrev pub Reads : Text → ℤ → Type 0
  Reads text cents = to_minor_units F (string text) 2 ≡ ok cents

  Reads-print : (n : ℤ) → Reads (format_minor n 2) n
  unfolding to_minor_units
  Reads-print n = minor-format n 2

  -- A line for each charge, in their order, with the id of the charge; its printed net is the open amount
  -- of the charge in the currency, and its printed total is its printed net and its printed tax together.
  -- The three numbers are what the printed nets, taxes and totals come to.
  pub data IsItemized (currency : Text)
      : List (InvoiceableCharge F.Number) → List InvoiceLine → ℤ → ℤ → ℤ → Type 0 where
    no_line : IsItemized currency [] [] (pos 0) (pos 0) (pos 0)
    one_line :
        (charge : InvoiceableCharge F.Number) (line : InvoiceLine) {net tax : ℤ}
        {charges : List (InvoiceableCharge F.Number)} {lines : List InvoiceLine}
        {nets taxes totals : ℤ}
        → line.id ≡ charge.id
        → parse_money F charge.amount_open (record positive_amount { currency = some currency })
          ≡ ok net
        → Reads line.net net
        → Reads line.tax tax
        → Reads line.total (net +ℤ tax)
        → IsItemized currency charges lines nets taxes totals
        → IsItemized currency
            (charge ∷ charges)
            (line ∷ lines)
            (net +ℤ nets)
            (tax +ℤ taxes)
            (net +ℤ tax +ℤ totals)

  abbrev open_amount : Text → InvoiceableCharge F.Number → Result MoneyError ℤ
  open_amount currency charge =
      parse_money F charge.amount_open (record positive_amount { currency = some currency })

  clash : {n : ℤ} {ns : List ℤ} → [] ≡ (n ∷ ns) → ⊥
  clash e = cc

  print_lines-IsItemized :
      (currency : Text) (charges : List (InvoiceableCharge F.Number)) (nets taxes : List ℤ)
      → parse_nets F currency charges ≡ ok nets
      → length taxes ≡ length nets
      → IsItemized currency charges
          (print_lines (map (λ charge. charge.id) charges) nets taxes)
          (sum_ℤ nets)
          (sum_ℤ taxes)
          (sum_ℤ nets +ℤ sum_ℤ taxes)
  print_lines-IsItemized currency [] [] [] h k =
      subst (IsItemized currency [] [] (pos 0) (pos 0)) (omega int_laws) no_line
  print_lines-IsItemized currency [] [] (t ∷ ts) h k = absurd (omega int_laws)
  print_lines-IsItemized currency [] (n ∷ ns) ts h k = cc
  print_lines-IsItemized currency (c ∷ cs) [] ts h k =
      let (net, nets, read, others, whole) = map_ok-append_step (open_amount currency) c cs h in
      absurd (clash whole)
  print_lines-IsItemized currency (c ∷ cs) (n ∷ ns) [] h k = absurd (omega int_laws)
  print_lines-IsItemized currency (c ∷ cs) (n ∷ ns) (t ∷ ts) h k =
      let (net, nets, read, others, whole) = map_ok-append_step (open_amount currency) c cs h in
      subst (IsItemized currency (c ∷ cs) _ (n +ℤ sum_ℤ ns) (t +ℤ sum_ℤ ts))
        (regrouped n t (sum_ℤ ns) (sum_ℤ ts))
        (one_line c
          (record {
            id = c.id;
            net = format_minor n 2;
            tax = format_minor t 2;
            total = format_minor (n +ℤ t) 2;
          })
          refl (read ∙ ap ok (head_same whole)) (Reads-print n) (Reads-print t)
          (Reads-print (n +ℤ t))
          (print_lines-IsItemized currency cs ns ts (others ∙ ap ok (tail_same whole))
            (omega int_laws)))
    where
      head_same : {net : ℤ} {nets : List ℤ} → (n ∷ ns) ≡ (net ∷ nets) → net ≡ n
      head_same e = cc

      tail_same : {net : ℤ} {nets : List ℤ} → (n ∷ ns) ≡ (net ∷ nets) → nets ≡ ns
      tail_same e = cc

      regrouped : (a b c d : ℤ) → a +ℤ b +ℤ (c +ℤ d) ≡ a +ℤ c +ℤ (b +ℤ d)
      regrouped a b c d = omega int_laws

  -- The parts of an invoice, before they are printed.
  record AddsUp (charges : List (InvoiceableCharge F.Number)) (u : InvoiceUnits) : Type 0 where
    ids : u.ids ≡ map (λ charge. charge.id) charges
    read : parse_nets F u.currency charges ≡ ok u.nets
    nets : sum_ℤ u.nets ≡ u.subtotal
    taxes : sum_ℤ u.line_taxes ≡ u.tax
    each : length u.line_taxes ≡ length u.nets

  invoice_units-AddsUp :
      (charges : List (InvoiceableCharge F.Number)) (rate : Value F.Number) {u : InvoiceUnits}
      → invoice_units F charges rate ≡ ok u
      → AddsUp charges u
  unfolding invoice_units
  invoice_units-AddsUp charges rate {u} h =
      let (some_charge, h1) = throw_if-ok _ _ _ h in
      let (currency, single, h2) =
        >>=-ok (single_currency (map (λ charge. charge.currency) charges)) _ h1 in
      let (nets, parsed, h3) = lift_money-ok (parse_nets F currency charges) _ h2 in
      let (units, rated, h4) = lift_money-ok (parse_rate_percent F rate) _ h3 in
      let (tax, taxed, h5) =
        lift_money-ok (apply_rate_percent (sum_minor nets) units money_rounding_mode) _ h4 in
      let (shares, shared, h6) = lift_money-ok (allocate_proportionally tax nets) _ h5 in
      let (whole, each) = allocate_proportionally_exact tax nets shared in
      subst (AddsUp charges) (ok_injective h6) (record {
        ids = refl;
        read = parsed;
        nets = sym (sum_minor_lem nets);
        taxes = sym (sum_minor_lem shares) ∙ whole;
        each = each;
      })

  -- What an invoice prints.
  pub record IsBalanced (charges : List (InvoiceableCharge F.Number)) (totals : InvoiceTotals)
      : Type 0 where
    pub subtotal : ℤ
    pub tax : ℤ
    pub subtotal_read : Reads totals.subtotal subtotal
    pub tax_read : Reads totals.tax tax
    pub total_read : Reads totals.total (subtotal +ℤ tax)
    pub lines : IsItemized totals.currency charges totals.lines subtotal tax (subtotal +ℤ tax)

  units-IsBalanced :
      (charges : List (InvoiceableCharge F.Number)) (u : InvoiceUnits)
      → AddsUp charges u
      → IsBalanced charges (print_totals u)
  units-IsBalanced charges u a = record {
    subtotal = u.subtotal;
    tax = u.tax;
    subtotal_read = Reads-print u.subtotal;
    tax_read = Reads-print u.tax;
    total_read = Reads-print (u.subtotal +ℤ u.tax);
    lines =
        rw (a.ids, sym a.nets, sym a.taxes)
          (print_lines-IsItemized u.currency charges u.nets u.line_taxes a.read a.each);
  }

  -- An invoice that is made prints amounts that read back, to the cent, and add up. It has a line for each
  -- charge, in their order and with their ids; the net of a line is the open amount of its charge, and its
  -- total is its net and its tax together. The nets of the lines come to the subtotal, their taxes to the
  -- tax, and their totals to the total, which is the subtotal and the tax together.
  pub compute_invoice_totals_exact :
      (charges : List (InvoiceableCharge F.Number)) (rate : Value F.Number) {totals : InvoiceTotals}
      → compute_invoice_totals F charges rate ≡ ok totals
      → IsBalanced charges totals
  unfolding compute_invoice_totals
  compute_invoice_totals_exact charges rate h =
      let (u, made, printed) = >>=-ok (invoice_units F charges rate) _ h in
      subst (IsBalanced charges) (ok_injective printed)
        (units-IsBalanced charges u (invoice_units-AddsUp charges rate made))
