-- ===== src/Fiscal/Cuf.antt =====
-- The unique code of an invoice: src/modules/fiscal/siat/domain/cuf.ts.
pub mod Check
pub mod Fields
pub mod Injective
use atlas_erpbackend.Prelude.{
  ℕ, ◌+◌, ◌-◌, ◌*◌, ◌%◌, Bool, true, false, not, ◌&&◌, ◌||◌, List, [], ◌∷◌, ◌++◌, ℤ, ltb, leb, ◌==◌,
  if◌then◌else◌, length, all, Result, ok, err, ◌>>=◌, ◌>>◌, throw_if,
}
use atlas_erpbackend.Text.{Text, codes, is_digit, trim, pad_start, to_upper}
use atlas_erpbackend.Text.Decimal.{print, read}
use atlas_erpbackend.Text.Hex.{print_hex}
use atlas_erpbackend.Money.Values.{print_ℤ}
use atlas_erpbackend.Money.Amount.{is_nil}
use mathlib.Core.List.{reverse}

-- A `string | number`; a number here is an integer.
pub data FieldValue : Type 0 where
  string : Text → FieldValue
  number : ℤ → FieldValue

pub record CufInput : Type 0 where
  pub nit : FieldValue
  pub fecha_emision : Text
  pub codigo_sucursal : ℤ
  pub codigo_modalidad : ℤ
  pub codigo_emision : ℤ
  pub tipo_factura_documento : ℤ
  pub codigo_documento_sector : ℤ
  pub numero_factura : FieldValue
  pub codigo_punto_venta : ℤ
  pub codigo_control : Text

-- The field that the error names.
pub data CufInputError : Type 0 where
  cuf_input_error : Text → CufInputError

-- `String(valor)`
abbrev pub text_of : FieldValue → Text
text_of (string s) = s
text_of (number n) = print_ℤ n

-- The loop, over the digits from the right; each unit is a digit.
abbrev pub weighted_sum : ℕ → Text → ℕ
weighted_sum mult [] = 0
weighted_sum mult (c ∷ s) = mult * (c - b'0') + weighted_sum (if mult == 9 then 2 else mult + 1) s

unfoldable pub modulo_11 : Text → Text
modulo_11 cadena =
    let digito = weighted_sum 2 (reverse cadena) % 11 in
    if digito == 10 then b'1' ∷ [] else if digito == 11 then b'0' ∷ [] else print digito

-- `FECHA`, with a `d` for each digit.
abbrev pub fecha : Text
fecha = codes "dddd-dd-ddTdd:dd:dd.ddd"

abbrev pub matches_pattern : Text → Text → Bool
matches_pattern [] [] = true
matches_pattern [] (c ∷ s) = false
matches_pattern (p ∷ ps) [] = false
matches_pattern (p ∷ ps) (c ∷ s) =
    (if p == b'd' then is_digit c else c == p) && matches_pattern ps s

-- The groups of a match, joined.
abbrev pub groups : Text → Text → Text
groups [] s = []
groups (p ∷ ps) [] = []
groups (p ∷ ps) (c ∷ s) = if p == b'd' then c ∷ groups ps s else groups ps s

unfoldable pub fecha_para_cuf : Text → Result CufInputError Text
fecha_para_cuf fecha_emision = do
  throw_if (not (matches_pattern fecha fecha_emision)) (cuf_input_error (codes "fechaEmision"))
  ok (groups fecha fecha_emision)

unfoldable pub relleno : Text → FieldValue → ℕ → Result CufInputError Text
relleno campo valor ancho = do
  let texto = trim (text_of valor)
  throw_if ((is_nil texto || not (all is_digit texto)) || ltb ancho (length texto))
      (cuf_input_error campo)
  ok (pad_start ancho b'0' texto)

-- `/^[0-9A-F]+$/i`
abbrev pub is_hex : ℕ → Bool
is_hex c = is_digit c || leb b'A' c && leb c b'F' || leb b'a' c && leb c b'f'

abbrev pub is_control : Text → Bool
is_control s = not (is_nil s) && all is_hex s

unfoldable pub cadena_of : CufInput → Result CufInputError Text
cadena_of input = do
  nit ← relleno (codes "nit") input.nit 13
  fecha ← fecha_para_cuf input.fecha_emision
  sucursal ← relleno (codes "codigoSucursal") (number input.codigo_sucursal) 4
  modalidad ← relleno (codes "codigoModalidad") (number input.codigo_modalidad) 1
  emision ← relleno (codes "codigoEmision") (number input.codigo_emision) 1
  tipo ← relleno (codes "tipoFacturaDocumento") (number input.tipo_factura_documento) 1
  sector ← relleno (codes "codigoDocumentoSector") (number input.codigo_documento_sector) 2
  factura ← relleno (codes "numeroFactura") input.numero_factura 10
  venta ← relleno (codes "codigoPuntoVenta") (number input.codigo_punto_venta) 4
  ok (
      nit
      ++ (fecha
          ++ (sucursal ++ (modalidad ++ (emision ++ (tipo ++ (sector ++ (factura ++ venta))))))))

unfoldable pub calcular_cuf : CufInput → Result CufInputError Text
calcular_cuf input = do
  throw_if (not (is_control input.codigo_control)) (cuf_input_error (codes "codigoControl"))
  cadena ← cadena_of input
  ok (to_upper (print_hex (read (cadena ++ modulo_11 cadena))) ++ input.codigo_control)
