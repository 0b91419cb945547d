-- ===== src/Fiscal/Totals.antt =====
-- The amounts of an invoice: src/modules/fiscal/siat/domain/montos.ts.
pub mod Positive
use atlas_erpbackend.Prelude.{
  ℕ, ◌^◌, Bool, true, false, ◌&&◌, ◌||◌, Option, none, some, List, [], ◌∷◌, map, ℤ, pos, ◌-ℤ◌, ◌*ℤ◌,
  is_neg, leb_ℤ, ◌==◌, if◌then◌else◌, all, Result, ok, err, ◌>>=◌, ◌>>◌, throw_if, map_ok,
}
use atlas_erpbackend.Text.{Text, codes}
use atlas_erpbackend.Money.Values.{
  Floats, Value, undefined, null, bigint, number, string, other, MoneyError,
}
use atlas_erpbackend.Money.Amount.{format_minor, is_nil, or_zero}
use atlas_erpbackend.Money.Exact.{parse_decimal_exact}
use atlas_erpbackend.Money.Division.{half_up, divide_rounded, sum_minor}

abbrev pub escala_cantidad : ℕ
escala_cantidad = 5

pub record LineaFiscalEntrada (N : Type 0) : Type 0 where
  pub cantidad : Value N
  pub precio_unitario : Value N
  pub monto_descuento : Value N

pub record LineaFiscal : Type 0 where
  pub cantidad : Text
  pub precio_unitario : Text
  pub monto_descuento : Text
  pub sub_total : Text

pub record TotalesFiscales : Type 0 where
  pub lineas : List LineaFiscal
  pub descuento_adicional : Text
  pub monto_total : Text
  pub monto_total_sujeto_iva : Text
  pub monto_total_moneda : Text
  pub monto_total_minor : ℤ

-- The errors of its own by their codes, and those of the money module.
pub data MontosError : Type 0 where
  invoice_without_lines : MontosError
  line_amount_not_positive : MontosError
  total_not_positive : MontosError
  money : MoneyError → MontosError

abbrev pub lift_money {ℓ} : {A : Type ℓ} → Result MoneyError A → Result MontosError A
lift_money (ok a) = ok a
lift_money (err e) = err (money e)

abbrev pub all_zeros : Text → Bool
all_zeros s = all (λ c. c == b'0') s

-- `.replace(/\.?0+$/, '')`: the first place from which a point, if any, and zeros run to the end.
abbrev pub strip_zeros : Text → Text
strip_zeros [] = []
strip_zeros (c ∷ s) =
    if all_zeros (c ∷ s) || c == b'.' && all_zeros s && (if is_nil s then false else true)
    then []
    else c ∷ strip_zeros s

unfoldable pub formato_cantidad : ℤ → Text
formato_cantidad minor = or_zero (strip_zeros (format_minor minor escala_cantidad))

-- A line and its subtotal in minor units.
pub record MinorLine : Type 0 where
  pub minor : ℤ
  pub linea : LineaFiscal

-- The floating point number 0 stands for an amount that is not given.
module _ (F : Floats) (nought : F.Number) where
  abbrev pub or_nought : Value F.Number → Value F.Number
  or_nought null = number nought
  or_nought undefined = number nought
  or_nought (bigint n) = bigint n
  or_nought (number x) = number x
  or_nought (string s) = string s
  or_nought other = other

  abbrev pub or_one : Value F.Number → Value F.Number
  or_one null = string (codes "1")
  or_one undefined = string (codes "1")
  or_one (bigint n) = bigint n
  or_one (number x) = number x
  or_one (string s) = string s
  or_one other = other

  unfoldable pub cantidad_minor : Value F.Number → Result MoneyError ℤ
  cantidad_minor valor = parse_decimal_exact F valor escala_cantidad

  -- The values of a line past their parsing.
  unfoldable pub checked_line : ℤ → ℤ → ℤ → ℤ → Result MontosError MinorLine
  checked_line cantidad precio descuento bruto = do
    let sub_total = bruto -ℤ descuento
    throw_if
        (leb_ℤ cantidad (pos 0)
          || leb_ℤ precio (pos 0)
          || is_neg descuento
          || leb_ℤ sub_total (pos 0))
        line_amount_not_positive
    ok (record {
      minor = sub_total;
      linea = record {
        cantidad = formato_cantidad cantidad;
        precio_unitario = format_minor precio 2;
        monto_descuento = format_minor descuento 2;
        sub_total = format_minor sub_total 2;
      };
    })

  unfoldable pub line_of : LineaFiscalEntrada F.Number → Result MontosError MinorLine
  line_of entrada = do
    cantidad ← lift_money (cantidad_minor entrada.cantidad)
    precio ← lift_money (parse_decimal_exact F entrada.precio_unitario 2)
    descuento ← lift_money (parse_decimal_exact F (or_nought entrada.monto_descuento) 2)
    bruto ← lift_money (divide_rounded (cantidad *ℤ precio) (pos (10 ^ escala_cantidad)) half_up)
    checked_line cantidad precio descuento bruto

  abbrev pub is_empty : List (LineaFiscalEntrada F.Number) → Bool
  is_empty [] = true
  is_empty (entrada ∷ entradas) = false

  unfoldable pub calcular_totales :
      List (LineaFiscalEntrada F.Number)
      → Value F.Number
      → Value F.Number
      → Result MontosError TotalesFiscales
  calcular_totales entradas descuento_dado tipo_cambio_dado = do
    throw_if (is_empty entradas) invoice_without_lines
    lineas ← map_ok line_of entradas
    descuento ← lift_money (parse_decimal_exact F (or_nought descuento_dado) 2)
    let total = sum_minor (map (λ l. l.minor) lineas) -ℤ descuento
    throw_if (is_neg descuento || leb_ℤ total (pos 0)) total_not_positive
    tipo_cambio ← lift_money (parse_decimal_exact F (or_one tipo_cambio_dado) 5)
    moneda ← lift_money (divide_rounded (total *ℤ pos (10 ^ 5)) tipo_cambio half_up)
    ok (record {
      lineas = map (λ l. l.linea) lineas;
      descuento_adicional = format_minor descuento 2;
      monto_total = format_minor total 2;
      monto_total_sujeto_iva = format_minor total 2;
      monto_total_moneda = format_minor moneda 2;
      monto_total_minor = total;
    })
