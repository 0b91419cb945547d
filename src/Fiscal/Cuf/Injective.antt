-- ===== src/Fiscal/Cuf/Injective.antt =====
-- Two calls of calcularCuf with one result.
use atlas_erpbackend.Prelude.{
  ℕ, ◌+◌, ◌≡◌, refl, sym, ap, ◌∙◌, subst, true, not, ◌++◌, ℤ, pos, arith, length, length-append,
  all, all-append, ok, throw_if-ok, >>=-ok, ok_injective,
}
use atlas_erpbackend.Text.{Text, codes, is_digit, to_upper}
use atlas_erpbackend.Text.Decimal.{read, read_injective}
use atlas_erpbackend.Text.Hex.{print_hex, read_hex, read_hex-print_hex}
use atlas_erpbackend.Fiscal.Cuf.{
  FieldValue, number, CufInput, cuf_input_error, modulo_11, fecha, matches_pattern, groups,
  fecha_para_cuf, relleno, is_control, cadena_of, calcular_cuf,
}
use atlas_erpbackend.Fiscal.Cuf.Check.{modulo_11-check_digit}
use atlas_erpbackend.Fiscal.Cuf.Fields.{
  append_injective, number_of, IsPadded, relleno-IsPadded, number-number_of, groups-digits,
  groups_injective,
}

-- The part of the date: its digits.
record IsStamp (fecha_emision t : Text) : Type 0 where
  matched : matches_pattern fecha fecha_emision ≡ true
  grouped : groups fecha fecha_emision ≡ t

fecha_para_cuf-IsStamp :
    (fecha_emision : Text) {t : Text}
    → fecha_para_cuf fecha_emision ≡ ok t
    → IsStamp fecha_emision t
unfolding fecha_para_cuf
fecha_para_cuf-IsStamp fecha_emision h =
    let (fits, made) =
      throw_if-ok (not (matches_pattern fecha fecha_emision))
        (cuf_input_error (codes "fechaEmision")) _ h in
    record { matched = ground arith; grouped = ok_injective made }

-- The parts of the text that a code is computed from.
record HasParts (input : CufInput) (cadena : Text) : Type 0 where
  t_nit : Text
  t_fecha : Text
  t_sucursal : Text
  t_modalidad : Text
  t_emision : Text
  t_tipo : Text
  t_sector : Text
  t_factura : Text
  t_venta : Text
  nit : IsPadded input.nit 13 t_nit
  fecha : IsStamp input.fecha_emision t_fecha
  sucursal : IsPadded (number input.codigo_sucursal) 4 t_sucursal
  modalidad : IsPadded (number input.codigo_modalidad) 1 t_modalidad
  emision : IsPadded (number input.codigo_emision) 1 t_emision
  tipo : IsPadded (number input.tipo_factura_documento) 1 t_tipo
  sector : IsPadded (number input.codigo_documento_sector) 2 t_sector
  factura : IsPadded input.numero_factura 10 t_factura
  venta : IsPadded (number input.codigo_punto_venta) 4 t_venta
  joined :
      cadena
      ≡ t_nit
        ++ (t_fecha
            ++ (t_sucursal
                ++ (t_modalidad
                    ++ (t_emision ++ (t_tipo ++ (t_sector ++ (t_factura ++ t_venta)))))))

cadena_of-HasParts :
    (input : CufInput) {cadena : Text} → cadena_of input ≡ ok cadena → HasParts input cadena
unfolding cadena_of
cadena_of-HasParts input h =
    let (t_nit, nit, h) = >>=-ok (relleno (codes "nit") input.nit 13) _ h in
    let (t_fecha, date, h) = >>=-ok (fecha_para_cuf input.fecha_emision) _ h in
    let (t_sucursal, sucursal, h) =
      >>=-ok (relleno (codes "codigoSucursal") (number input.codigo_sucursal) 4) _ h in
    let (t_modalidad, modalidad, h) =
      >>=-ok (relleno (codes "codigoModalidad") (number input.codigo_modalidad) 1) _ h in
    let (t_emision, emision, h) =
      >>=-ok (relleno (codes "codigoEmision") (number input.codigo_emision) 1) _ h in
    let (t_tipo, tipo, h) =
      >>=-ok (relleno (codes "tipoFacturaDocumento") (number input.tipo_factura_documento) 1) _ h in
    let (t_sector, sector, h) =
      >>=-ok (relleno (codes "codigoDocumentoSector") (number input.codigo_documento_sector) 2) _
        h in
    let (t_factura, factura, h) =
      >>=-ok (relleno (codes "numeroFactura") input.numero_factura 10) _ h in
    let (t_venta, venta, h) =
      >>=-ok (relleno (codes "codigoPuntoVenta") (number input.codigo_punto_venta) 4) _ h in
    record {
      t_nit = t_nit;
      t_fecha = t_fecha;
      t_sucursal = t_sucursal;
      t_modalidad = t_modalidad;
      t_emision = t_emision;
      t_tipo = t_tipo;
      t_sector = t_sector;
      t_factura = t_factura;
      t_venta = t_venta;
      nit = relleno-IsPadded _ _ _ nit;
      fecha = fecha_para_cuf-IsStamp _ date;
      sucursal = relleno-IsPadded _ _ _ sucursal;
      modalidad = relleno-IsPadded _ _ _ modalidad;
      emision = relleno-IsPadded _ _ _ emision;
      tipo = relleno-IsPadded _ _ _ tipo;
      sector = relleno-IsPadded _ _ _ sector;
      factura = relleno-IsPadded _ _ _ factura;
      venta = relleno-IsPadded _ _ _ venta;
      joined = sym (ok_injective h);
    }

-- The fields that the code is computed from are the same; those that are given as `string | number` are
-- the same number.
pub record IsSameInvoice (a b : CufInput) : Type 0 where
  nit : number_of a.nit ≡ number_of b.nit
  fecha_emision : a.fecha_emision ≡ b.fecha_emision
  codigo_sucursal : a.codigo_sucursal ≡ b.codigo_sucursal
  codigo_modalidad : a.codigo_modalidad ≡ b.codigo_modalidad
  codigo_emision : a.codigo_emision ≡ b.codigo_emision
  tipo_factura_documento : a.tipo_factura_documento ≡ b.tipo_factura_documento
  codigo_documento_sector : a.codigo_documento_sector ≡ b.codigo_documento_sector
  numero_factura : number_of a.numero_factura ≡ number_of b.numero_factura
  codigo_punto_venta : a.codigo_punto_venta ≡ b.codigo_punto_venta
  codigo_control : a.codigo_control ≡ b.codigo_control

same_number :
    {v w : FieldValue} {n : ℕ} {s t : Text}
    → IsPadded v n s
    → IsPadded w n t
    → s ≡ t
    → number_of v ≡ number_of w
same_number p q e = sym p.spells ∙ ap read e ∙ q.spells

same_integer :
    {y z : ℤ} {n : ℕ} {s t : Text}
    → IsPadded (number y) n s
    → IsPadded (number z) n t
    → s ≡ t
    → y ≡ z
same_integer {y} {z} p q e =
    number-number_of y p.plain ∙ ap pos (same_number p q e) ∙ sym (number-number_of z q.plain)

same_width :
    {v w : FieldValue} {n : ℕ} {s t : Text} → IsPadded v n s → IsPadded w n t → length s ≡ length t
same_width p q = p.width ∙ sym q.width

stamp_width : {s t : Text} → IsStamp s t → (length t ≡ 17) × (all is_digit t ≡ true)
stamp_width {s} {t} p =
    let (width, digits) = groups-digits fecha s p.matched in
    (ap length (sym p.grouped) ∙ width, ap (all is_digit) (sym p.grouped) ∙ digits)

-- The parts of one text are the same parts.
same_parts :
    (a b : CufInput) {cadena : Text}
    → HasParts a cadena
    → HasParts b cadena
    → a.codigo_control ≡ b.codigo_control
    → IsSameInvoice a b
same_parts a b p q control =
    let stamps = (stamp_width p.fecha).0 ∙ sym ((stamp_width q.fecha).0) in
    let (nit, e) =
      append_injective p.t_nit _ q.t_nit _ (same_width p.nit q.nit) (sym p.joined ∙ q.joined) in
    let (date, e) = append_injective p.t_fecha _ q.t_fecha _ stamps e in
    let (sucursal, e) =
      append_injective p.t_sucursal _ q.t_sucursal _ (same_width p.sucursal q.sucursal) e in
    let (modalidad, e) =
      append_injective p.t_modalidad _ q.t_modalidad _ (same_width p.modalidad q.modalidad) e in
    let (emision, e) =
      append_injective p.t_emision _ q.t_emision _ (same_width p.emision q.emision) e in
    let (tipo, e) = append_injective p.t_tipo _ q.t_tipo _ (same_width p.tipo q.tipo) e in
    let (sector, e) = append_injective p.t_sector _ q.t_sector _ (same_width p.sector q.sector) e in
    let (factura, venta) =
      append_injective p.t_factura _ q.t_factura _ (same_width p.factura q.factura) e in
    record {
      nit = same_number p.nit q.nit nit;
      fecha_emision =
          groups_injective fecha a.fecha_emision b.fecha_emision p.fecha.matched q.fecha.matched
            (p.fecha.grouped ∙ date ∙ sym q.fecha.grouped);
      codigo_sucursal = same_integer p.sucursal q.sucursal sucursal;
      codigo_modalidad = same_integer p.modalidad q.modalidad modalidad;
      codigo_emision = same_integer p.emision q.emision emision;
      tipo_factura_documento = same_integer p.tipo q.tipo tipo;
      codigo_documento_sector = same_integer p.sector q.sector sector;
      numero_factura = same_number p.factura q.factura factura;
      codigo_punto_venta = same_integer p.venta q.venta venta;
      codigo_control = control;
    }

join :
    {m n : ℕ} (s t : Text)
    → (length s ≡ m) × (all is_digit s ≡ true)
    → (length t ≡ n) × (all is_digit t ≡ true)
    → (length (s ++ t) ≡ m + n) × (all is_digit (s ++ t) ≡ true)
join s t (l, d) (k, e) =
    (length-append s t ∙ rw (l, k) refl, all-append is_digit s t ∙ rw (d, e) refl)

digits_of :
    {v : FieldValue} {n : ℕ} {t : Text} → IsPadded v n t → (length t ≡ n) × (all is_digit t ≡ true)
digits_of p = (p.width, p.digits)

HasParts-digits :
    {a : CufInput} {cadena : Text}
    → HasParts a cadena
    → (length cadena ≡ 53) × (all is_digit cadena ≡ true)
HasParts-digits p =
    subst (λ s. (length s ≡ 53) × (all is_digit s ≡ true)) (sym p.joined)
      (join _ _ (digits_of p.nit) (
        join _ _ (stamp_width p.fecha) (
          join _ _ (digits_of p.sucursal) (
            join _ _ (digits_of p.modalidad) (
              join _ _ (digits_of p.emision) (
                join _ _ (digits_of p.tipo) (
                  join _ _ (digits_of p.sector)
                    (join _ _ (digits_of p.factura) (digits_of p.venta)))))))))

check_width : (s : Text) → (length (modulo_11 s) ≡ 1) × (all is_digit (modulo_11 s) ≡ true)
check_width s = let (one, digits) = modulo_11-check_digit s in (ap length one, digits)

-- The text of digits is read back from the code.
same_cadena :
    (a b : CufInput) {s t : Text}
    → HasParts a s
    → HasParts b t
    → to_upper (print_hex (read (s ++ modulo_11 s)))
      ≡ to_upper (print_hex (read (t ++ modulo_11 t)))
    → s ≡ t
same_cadena a b {s} {t} p q e =
    let (width_s, digits_s) = join s _ (HasParts-digits p) (check_width s) in
    let (width_t, digits_t) = join t _ (HasParts-digits q) (check_width t) in
    let numbers = sym (read_hex-print_hex _) ∙ ap read_hex e ∙ read_hex-print_hex _ in
    let texts = read_injective _ _ digits_s digits_t (width_s ∙ sym width_t) numbers in
    (append_injective s _ t _ ((HasParts-digits p).0 ∙ sym ((HasParts-digits q).0)) texts).0

-- Two invoices that get the same code, with control codes of the same length, have the same tax number,
-- date of emission, branch, mode, kind of emission, kind of document, sector, number, point of sale and
-- control code: a code names one invoice.
pub calcular_cuf_injective :
    (a b : CufInput) {cuf : Text}
    → length a.codigo_control ≡ length b.codigo_control
    → calcular_cuf a ≡ ok cuf
    → calcular_cuf b ≡ ok cuf
    → IsSameInvoice a b
unfolding calcular_cuf
calcular_cuf_injective a b l h k =
    let (_, h) =
      throw_if-ok (not (is_control a.codigo_control)) (cuf_input_error (codes "codigoControl")) _
        h in
    let (_, k) =
      throw_if-ok (not (is_control b.codigo_control)) (cuf_input_error (codes "codigoControl")) _
        k in
    let (s, made_s, h) = >>=-ok (cadena_of a) _ h in
    let (t, made_t, k) = >>=-ok (cadena_of b) _ k in
    let p = cadena_of-HasParts a made_s in
    let q = cadena_of-HasParts b made_t in
    let head_s : Text = to_upper (print_hex (read (s ++ modulo_11 s))) in
    let head_t : Text = to_upper (print_hex (read (t ++ modulo_11 t))) in
    let whole : head_s ++ a.codigo_control ≡ head_t ++ b.codigo_control =
      ok_injective h ∙ sym (ok_injective k) in
    let sizes =
      sym (length-append head_s a.codigo_control)
      ∙ ap length whole
      ∙ length-append head_t b.codigo_control in
    let (heads, controls) = append_injective head_s _ head_t _ (omega arith) whole in
    same_parts a b p (subst (HasParts b) (sym (same_cadena a b p q heads)) q) controls
