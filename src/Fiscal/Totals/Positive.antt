-- ===== src/Fiscal/Totals/Positive.antt =====
-- The lines and the total of calcularTotales.
use atlas_erpbackend.Prelude.{
  ◌^◌, ◌<◌, ◌≡◌, refl, sym, ap, ◌∙◌, subst, false, ◌||◌, List, [], ◌∷◌, map, ℤ, pos, ◌-ℤ◌, ◌*ℤ◌,
  pos_part, is_neg, leb_ℤ, arith, Result, ok, err, ◌>>=◌, throw_if-ok, >>=-ok, ok_injective, map_ok,
  map_ok-append_step,
}
use atlas_erpbackend.Money.Values.{Floats, Value, string, MoneyError}
use atlas_erpbackend.Money.Amount.{format_minor, to_minor_units}
use atlas_erpbackend.Money.Amount.RoundTrip.{minor-format}
use atlas_erpbackend.Money.Exact.{parse_decimal_exact}
use atlas_erpbackend.Money.Division.{half_up, divide_rounded, sum_minor}
use atlas_erpbackend.Fiscal.Totals.{
  escala_cantidad, LineaFiscalEntrada, LineaFiscal, TotalesFiscales, MontosError,
  invoice_without_lines, line_amount_not_positive, total_not_positive, lift_money, MinorLine,
  or_nought, or_one, cantidad_minor, checked_line, line_of, is_empty, calcular_totales,
}

lift_money-ok :
    {A B : Type 0} (r : Result MoneyError A) (f : A → Result MontosError B) {b : B}
    → (lift_money r >>= f) ≡ ok b
    → (a : A) × (r ≡ ok a) × (f a ≡ ok b)
lift_money-ok (ok a) f h = (a, refl, h)
lift_money-ok (err e) f h = cc

abbrev pub IsPositive : ℤ → Type 0
IsPositive n = 0 < pos_part n

-- A line of an invoice: what it was given, how its subtotal came about, and how it prints.
pub record IsLine (F : Floats) (nought : F.Number) (entrada : LineaFiscalEntrada F.Number)
    (l : MinorLine) : Type 0 where
  pub cantidad : ℤ
  pub precio : ℤ
  pub descuento : ℤ
  pub bruto : ℤ
  pub cantidad_read : cantidad_minor F nought entrada.cantidad ≡ ok cantidad
  pub precio_read : parse_decimal_exact F entrada.precio_unitario 2 ≡ ok precio
  pub descuento_read :
      parse_decimal_exact F (or_nought F nought entrada.monto_descuento) 2 ≡ ok descuento
  pub rounded : divide_rounded (cantidad *ℤ precio) (pos (10 ^ escala_cantidad)) half_up ≡ ok bruto
  pub subtotal : l.minor ≡ bruto -ℤ descuento
  pub printed : l.linea.sub_total ≡ format_minor l.minor 2
  pub cantidad_positive : IsPositive cantidad
  pub precio_positive : IsPositive precio
  pub descuento_not_negative : is_neg descuento ≡ false
  pub subtotal_positive : IsPositive l.minor

module _ (F : Floats) (nought : F.Number) where
  line_of-IsLine :
      (entrada : LineaFiscalEntrada F.Number) (l : MinorLine)
      → line_of F nought entrada ≡ ok l
      → IsLine F nought entrada l
  unfolding line_of checked_line
  line_of-IsLine entrada l h =
      let (c, c_read, h) = lift_money-ok (cantidad_minor F nought entrada.cantidad) _ h in
      let (p, p_read, h) = lift_money-ok (parse_decimal_exact F entrada.precio_unitario 2) _ h in
      let (d, d_read, h) =
        lift_money-ok (parse_decimal_exact F (or_nought F nought entrada.monto_descuento) 2) _ h in
      let (b, rounded, h) =
        lift_money-ok (divide_rounded (c *ℤ p) (pos (10 ^ escala_cantidad)) half_up) _ h in
      let (fits, h) =
        throw_if-ok (leb_ℤ c (pos 0) || leb_ℤ p (pos 0) || is_neg d || leb_ℤ (b -ℤ d) (pos 0))
          line_amount_not_positive _ h in
      let (c_pos, p_pos, d_pos, s_pos) = four c p d (b -ℤ d) fits in
      subst (IsLine F nought entrada) (ok_injective h) (record {
        cantidad = c;
        precio = p;
        descuento = d;
        bruto = b;
        cantidad_read = c_read;
        precio_read = p_read;
        descuento_read = d_read;
        rounded = rounded;
        subtotal = refl;
        printed = refl;
        cantidad_positive = c_pos;
        precio_positive = p_pos;
        descuento_not_negative = d_pos;
        subtotal_positive = s_pos;
      })
    where
      four :
          (c p d s : ℤ)
          → (leb_ℤ c (pos 0) || leb_ℤ p (pos 0) || is_neg d || leb_ℤ s (pos 0)) ≡ false
          → IsPositive c × IsPositive p × (is_neg d ≡ false) × IsPositive s
      four c p d s h = ground arith

  -- The lines, one for each that was given.
  abbrev pub AreLines : List (LineaFiscalEntrada F.Number) → List MinorLine → Type 0
  AreLines [] [] = Unit
  AreLines [] (l ∷ ls) = ⊥
  AreLines (e ∷ es) [] = ⊥
  AreLines (e ∷ es) (l ∷ ls) = IsLine F nought e l × AreLines es ls

  map_ok-AreLines :
      (es : List (LineaFiscalEntrada F.Number)) (ls : List MinorLine)
      → map_ok (line_of F nought) es ≡ ok ls
      → AreLines es ls
  map_ok-AreLines [] [] h = tt
  map_ok-AreLines [] (l ∷ ls) h = cc
  map_ok-AreLines (e ∷ es) ls h =
      let (m, ms, made, others, whole) = map_ok-append_step (line_of F nought) e es h in
      subst (AreLines (e ∷ es)) (sym whole) (line_of-IsLine e m made, map_ok-AreLines es ms others)

  -- The subtotals as they are printed, read.
  abbrev pub read_subtotals : List LineaFiscal → Result MoneyError (List ℤ)
  read_subtotals lineas = map_ok (λ l. to_minor_units F (string l.sub_total) 2) lineas

  read_printed : (n : ℤ) → to_minor_units F (string (format_minor n 2)) 2 ≡ ok n
  unfolding to_minor_units
  read_printed n = minor-format n 2

  AreLines-read :
      (es : List (LineaFiscalEntrada F.Number)) (ls : List MinorLine)
      → AreLines es ls
      → read_subtotals (map (λ l. l.linea) ls) ≡ ok (map (λ l. l.minor) ls)
  AreLines-read [] [] h = refl
  AreLines-read [] (l ∷ ls) h = absurd h
  AreLines-read (e ∷ es) [] h = absurd h
  AreLines-read (e ∷ es) (l ∷ ls) (first, others) =
      let printed = ap (λ t. to_minor_units F (string t) 2) first.printed ∙ read_printed l.minor in
      rw (printed, AreLines-read es ls others) refl

  pub record IsTotalled (entradas : List (LineaFiscalEntrada F.Number))
      (descuento_dado : Value F.Number) (t : TotalesFiscales) : Type 0 where
    pub lines : List MinorLine
    pub descuento : ℤ
    pub each : AreLines entradas lines
    pub printed_lines : t.lineas ≡ map (λ l. l.linea) lines
    pub read_back : read_subtotals t.lineas ≡ ok (map (λ l. l.minor) lines)
    pub descuento_read : parse_decimal_exact F (or_nought F nought descuento_dado) 2 ≡ ok descuento
    pub descuento_not_negative : is_neg descuento ≡ false
    pub total : t.monto_total_minor ≡ sum_minor (map (λ l. l.minor) lines) -ℤ descuento
    pub total_positive : IsPositive t.monto_total_minor
    pub printed_total : to_minor_units F (string t.monto_total) 2 ≡ ok t.monto_total_minor

  -- Where the totals of an invoice are made, each line given has one line, in order, whose quantity,
  -- price and subtotal are positive, whose discount is not negative, and whose subtotal is the rounded
  -- product less the discount; the printed subtotals read back as those; and the total, which is
  -- positive and reads back from its print, is their sum less a discount that is not negative.
  pub calcular_totales-IsTotalled :
      (entradas : List (LineaFiscalEntrada F.Number))
      (descuento_dado tipo_cambio_dado : Value F.Number) {t : TotalesFiscales}
      → calcular_totales F nought entradas descuento_dado tipo_cambio_dado ≡ ok t
      → IsTotalled entradas descuento_dado t
  unfolding calcular_totales
  calcular_totales-IsTotalled entradas descuento_dado tipo_cambio_dado h =
      let (_, h) = throw_if-ok (is_empty F nought entradas) invoice_without_lines _ h in
      let (lines, made, h) = >>=-ok (map_ok (line_of F nought) entradas) _ h in
      let (d, d_read, h) =
        lift_money-ok (parse_decimal_exact F (or_nought F nought descuento_dado) 2) _ h in
      let total : ℤ = sum_minor (map (λ l. l.minor) lines) -ℤ d in
      let (fits, h) = throw_if-ok (is_neg d || leb_ℤ total (pos 0)) total_not_positive _ h in
      let (tipo, _, h) =
        lift_money-ok (parse_decimal_exact F (or_one F nought tipo_cambio_dado) 5) _ h in
      let (moneda, _, h) =
        lift_money-ok (divide_rounded (total *ℤ pos (10 ^ 5)) tipo half_up) _ h in
      let (d_sign, t_sign) = signs d total fits in
      let each = map_ok-AreLines entradas lines made in
      subst (IsTotalled entradas descuento_dado) (ok_injective h) (record {
        lines = lines;
        descuento = d;
        each = each;
        printed_lines = refl;
        read_back = AreLines-read entradas lines each;
        descuento_read = d_read;
        descuento_not_negative = d_sign;
        total = refl;
        total_positive = t_sign;
        printed_total = read_printed total;
      })
    where
      signs : (d t : ℤ) → (is_neg d || leb_ℤ t (pos 0)) ≡ false → (is_neg d ≡ false) × IsPositive t
      signs d t h = ground arith
