-- ===== src/Tests/Fiscal.antt =====
-- An official code of the tax authority, and its example of an invoice with a discount.
use atlas_erpbackend.Prelude.{
  ℕ, ◌≤◌, ◌<◌, ◌≡◌, refl, true, List, [], ◌∷◌, pos, ◌+ℤ◌, ◌-ℤ◌, ◌*ℤ◌, ◌%◌, ok, all, some,
}
use atlas_erpbackend.Text.{Text, codes, is_digit, to_upper, trim, is_space}
use atlas_erpbackend.Text.Decimal.{print}
use atlas_erpbackend.Text.Hex.{print_hex}
use atlas_erpbackend.Money.Values.{print_ℤ}
use atlas_erpbackend.Fiscal.Cuf.{
  CufInput, string, number, modulo_11, relleno, fecha_para_cuf, cadena_of, calcular_cuf,
}
use atlas_erpbackend.Fiscal.Cuf.Check.{check_digit, cyclic_sum, modulo_11-check_digit}
use atlas_erpbackend.Fiscal.Cuf.Injective.{IsSameInvoice, calcular_cuf_injective}
use mathlib.Core.List.{reverse}
use atlas_erpbackend.Money.Values.{Value, null}
use atlas_erpbackend.Money.Values
use atlas_erpbackend.Money.Amount.{
  format_minor, matches_amount, strip_sign, to_minor_units, minor_of_text, minor_of_parts,
  starts_negative,
}
use atlas_erpbackend.Money.Exact.{parse_decimal_exact, exact_decimal_text}
use atlas_erpbackend.Money.Division.{divide_rounded, sum_minor}
use atlas_erpbackend.Fiscal.Totals.{
  LineaFiscalEntrada, TotalesFiscales, formato_cantidad, cantidad_minor, checked_line, line_of,
  calcular_totales,
}
use atlas_erpbackend.Fiscal.Totals.Positive.{IsTotalled, calcular_totales-IsTotalled}
use atlas_erpbackend.Fiscal.Words.{
  words, out_of_range, largest, hasta_cien, hasta_mil, apocope, entero_en_letras,
}
use atlas_erpbackend.Fiscal.Words.Whole.{HasWords, entero_en_letras_total}
use atlas_erpbackend.Tests.Numbers.{naturals}

abbrev official : CufInput
official = record {
  nit = string (codes "123456789");
  fecha_emision = codes "2019-01-13T16:37:21.231";
  codigo_sucursal = pos 0;
  codigo_modalidad = pos 1;
  codigo_emision = pos 1;
  tipo_factura_documento = pos 1;
  codigo_documento_sector = pos 1;
  numero_factura = number (pos 1);
  codigo_punto_venta = pos 0;
  codigo_control = codes "A19E23EF34124CD";
}

official_code :
    calcular_cuf official ≡ ok (codes "8727F63A15F8976591FDDE5B387C5D015A29E06A1A19E23EF34124CD")
unfolding calcular_cuf cadena_of relleno fecha_para_cuf modulo_11 print_hex print print_ℤ to_upper
    trim is_space
official_code = refl

-- The same, with the tax number written out.
abbrev padded : CufInput
padded = record official { nit = string (codes " 0123456789 ") }

padded_code :
    calcular_cuf padded ≡ ok (codes "8727F63A15F8976591FDDE5B387C5D015A29E06A1A19E23EF34124CD")
unfolding calcular_cuf cadena_of relleno fecha_para_cuf modulo_11 print_hex print print_ℤ to_upper
    trim is_space
padded_code = refl

calcular_cuf_injective_example : IsSameInvoice official padded
calcular_cuf_injective_example =
    calcular_cuf_injective official padded refl official_code padded_code

modulo_11-check_digit_example :
    (modulo_11 (codes "70319") ≡ check_digit (cyclic_sum 0 (reverse (codes "70319")) % 11) ∷ [])
    × (all is_digit (modulo_11 (codes "70319")) ≡ true)
modulo_11-check_digit_example = modulo_11-check_digit (codes "70319")

-- The text of an amount.
abbrev given : Text → Value ℕ
given s = Values.string s

abbrev one_line : List (LineaFiscalEntrada ℕ)
one_line =
    record {
      cantidad = given (codes "1");
      precio_unitario = given (codes "100");
      monto_descuento = null;
    }
    ∷ []

abbrev one_hundred_less_one : TotalesFiscales
one_hundred_less_one = record {
  lineas =
      record {
        cantidad = codes "1";
        precio_unitario = codes "100.00";
        monto_descuento = codes "0.00";
        sub_total = codes "100.00";
      }
      ∷ [];
  descuento_adicional = codes "1.00";
  monto_total = codes "99.00";
  monto_total_sujeto_iva = codes "99.00";
  monto_total_moneda = codes "99.00";
  monto_total_minor = pos 9900;
}

one_hundred_less_one_total :
    calcular_totales naturals 0 one_line (given (codes "1")) null ≡ ok one_hundred_less_one
unfolding calcular_totales line_of checked_line cantidad_minor formato_cantidad divide_rounded
    sum_minor parse_decimal_exact exact_decimal_text to_minor_units minor_of_text minor_of_parts
    matches_amount starts_negative strip_sign trim is_space ◌+ℤ◌ ◌-ℤ◌ ◌*ℤ◌ format_minor print
one_hundred_less_one_total = refl

calcular_totales-IsTotalled_example :
    IsTotalled naturals 0 one_line (given (codes "1")) one_hundred_less_one
calcular_totales-IsTotalled_example =
    calcular_totales-IsTotalled naturals 0 one_line (given (codes "1")) null
      one_hundred_less_one_total

in_words :
    entero_en_letras 2 21001161 ≡ some (words (codes "veintiún millones mil ciento sesenta y uno"))
unfolding entero_en_letras hasta_mil hasta_cien apocope is_space
in_words = refl

entero_en_letras_total_example :
    (21001161 ≤ largest → HasWords (entero_en_letras 2 21001161))
    × (largest < 21001161 → entero_en_letras 2 21001161 ≡ some out_of_range)
entero_en_letras_total_example = entero_en_letras_total 0 21001161
