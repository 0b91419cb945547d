-- ===== src/Fiscal/Dispatch/Steps.antt =====
-- What the queue does with a document: enviar, consultar, aplicar, regenerarFueraDeLinea, reclamar,
-- rescatarHuerfanos and adelantar of siat-dispatch.service.ts. The mail queued for a document is beside it.
use atlas_erpbackend.Prelude.{
  ℕ, ◌+◌, ◌-◌, ◌*◌, ◌^◌, min, Bool, true, false, ◌||◌, Option, none, some, List, [], pos, ltb, leb,
  if◌then◌else◌, Result, ok, err, ◌>>=◌,
}
use atlas_erpbackend.Text.{Text, text_eq}
use atlas_erpbackend.Fiscal.Cuf.{calcular_cuf}
use atlas_erpbackend.Fiscal.Dispatch.{
  EstadoFinal, final_accepted, final_observed, status_of, SiatStatus, sent, error, offline,
  SiatMensaje, Motivo, sin_emisor, consulta_sin_respuesta, sin_envio, sin_respuesta, Desenlace,
  estado_final, por_consultar, por_regenerar, fallo, or_empty, interpretar_recepcion,
  por_verificacion, Llamada, contesta, transporte_falla, otro_error, Perfil, Cufd, Evento,
  Documento, Fault, gateway_fault, event_fault, Entorno, espera_maxima_ms, or_now, lift_cuf,
  excepcion_de,
}

-- A document, and whether its mail was queued.
pub record Salida : Type 0 where
  pub documento : Documento
  pub correo : Bool

abbrev pub sin_correo : Documento → Salida
sin_correo d = record { documento = d; correo = false }

-- The mail that follows a final state.
abbrev pub tiene_correo : EstadoFinal → Bool
tiene_correo final_accepted = true
tiene_correo final_observed = true
tiene_correo _ = false

abbrev pub con_estado : Documento → EstadoFinal → ℕ → List SiatMensaje → Documento
con_estado d estado codigo mensajes = record d {
  siat_status = status_of estado;
  codigo_estado_sin = some codigo;
  mensajes = mensajes;
  last_error = none;
  next_attempt_at = none;
}

abbrev pub text_or_same : Bool → Option Cufd → Cufd → Option Cufd
text_or_same true otro cufd = some cufd
text_or_same false otro cufd = otro

module _ (E : Entorno) where
  open E use {
    now, http_timeout_ms, online_max_attempts, online_window_s, contexto, recepcion, verificacion,
    abrir, find_cufd, reescribir,
  }

  -- The age is 0 for a date of emission that is to come, which is not past the window either.
  unfoldable pub ventana_agotada : Documento → Bool
  ventana_agotada d =
      leb online_max_attempts d.attempt_count
      || ltb (online_window_s * 1000) (now - or_now now d.emitted_at)

  -- The code of the document as it is issued off line.
  unfoldable pub cuf_fuera_de_linea : Documento → Perfil → Cufd → Result Fault Text
  cuf_fuera_de_linea d perfil cufd = lift_cuf (
      calcular_cuf (record {
        nit = perfil.nit;
        fecha_emision = d.fecha_emision;
        codigo_sucursal = perfil.codigo_sucursal;
        codigo_modalidad = d.codigo_modalidad;
        codigo_emision = pos 2;
        tipo_factura_documento = d.tipo_factura_documento;
        codigo_documento_sector = d.codigo_documento_sector;
        numero_factura = d.numero_factura;
        codigo_punto_venta = perfil.codigo_punto_venta;
        codigo_control = cufd.codigo_control;
      }))

  abbrev pub fuera_de_linea :
      Documento → Perfil → Cufd → Evento → List SiatMensaje → Text → Documento
  fuera_de_linea d perfil cufd evento mensajes cuf =
      let excepcion = excepcion_de d.receptor_tipo in
      record d {
        cuf = cuf;
        cufd = cufd.codigo;
        cufd_id = cufd.id;
        codigo_emision = 2;
        codigo_excepcion = excepcion;
        contingency_flag = true;
        event_id = some evento.id;
        archivo = reescribir d.archivo cuf cufd.codigo excepcion;
        siat_status = offline;
        mensajes = mensajes;
        next_attempt_at = none;
        last_error = none;
      }

  abbrev pub con_cufd :
      Documento → Perfil → Evento → List SiatMensaje → Option Cufd → Result Fault Documento
  con_cufd d perfil evento mensajes none = ok d
  con_cufd d perfil evento mensajes (some cufd) = do
    cuf ← cuf_fuera_de_linea d perfil cufd
    ok (fuera_de_linea d perfil cufd evento mensajes cuf)

  abbrev pub con_evento :
      Documento → Perfil → Cufd → List SiatMensaje → Option Evento → Result Fault Documento
  con_evento d perfil cufd mensajes none = err event_fault
  con_evento d perfil cufd mensajes (some evento) =
      con_cufd d perfil evento mensajes (
        text_or_same (text_eq evento.cufd_evento_id cufd.id) (find_cufd evento.cufd_evento_id) cufd)

  abbrev pub con_contexto :
      Documento → List SiatMensaje → Option (Perfil × Cufd) → Result Fault Documento
  con_contexto d mensajes none = ok d
  con_contexto d mensajes (some (perfil, cufd)) =
      con_evento d perfil cufd mensajes (abrir perfil cufd (or_now now d.emitted_at))

  unfoldable pub regenerar_fuera_de_linea : Documento → List SiatMensaje → Result Fault Documento
  regenerar_fuera_de_linea d mensajes = con_contexto d mensajes (contexto d)

  abbrev pub regenerado : Documento → List SiatMensaje → Result Fault Salida
  regenerado d mensajes = do despues ← regenerar_fuera_de_linea d mensajes; ok (sin_correo despues)

  abbrev pub espera : ℕ → ℕ
  espera attempt_count = min (2 ^ attempt_count * 5000) espera_maxima_ms

  abbrev pub en_espera : Documento → List SiatMensaje → Motivo → Salida
  en_espera d mensajes motivo = sin_correo (record d {
    siat_status = error;
    mensajes = mensajes;
    last_error = some motivo;
    next_attempt_at = some (now + espera d.attempt_count);
  })

  abbrev pub reintentado : Documento → List SiatMensaje → Motivo → Result Fault Salida
  reintentado d mensajes motivo =
      if ventana_agotada d then regenerado d mensajes else ok (en_espera d mensajes motivo)

  unfoldable pub aplicar : Documento → Desenlace → Result Fault Salida
  aplicar d (estado_final estado codigo mensajes) =
      ok (record { documento = con_estado d estado codigo mensajes; correo = tiene_correo estado })
  aplicar d (por_regenerar mensajes) = regenerado d mensajes
  aplicar d (por_consultar mensajes) = reintentado d mensajes consulta_sin_respuesta
  aplicar d (fallo mensajes motivo alerta) = reintentado d mensajes motivo

  abbrev pub verificado : Llamada → Result Fault Desenlace
  verificado (contesta r) = ok (por_verificacion r.codigo_estado (or_empty r.mensajes_list))
  verificado (transporte_falla enviado mensaje) = ok (fallo [] (sin_respuesta mensaje) false)
  verificado otro_error = err gateway_fault

  abbrev pub consultado : Documento → Option (Perfil × Cufd) → Result Fault Desenlace
  consultado d none = ok (fallo [] sin_emisor true)
  consultado d (some (perfil, cufd)) = verificado (verificacion perfil cufd d)

  unfoldable pub consultar : Documento → Result Fault Desenlace
  consultar d = consultado d (contexto d)

  -- The outcome of an answer, with the query where the answer asks for it.
  abbrev pub tras_consulta : Documento → Desenlace → Result Fault Desenlace
  tras_consulta d (por_consultar mensajes) = consultar d
  tras_consulta d (estado_final estado codigo mensajes) = ok (estado_final estado codigo mensajes)
  tras_consulta d (por_regenerar mensajes) = ok (por_regenerar mensajes)
  tras_consulta d (fallo mensajes motivo alerta) = ok (fallo mensajes motivo alerta)

  abbrev pub recibido : Documento → Llamada → Result Fault Desenlace
  recibido d (contesta r) = tras_consulta d (interpretar_recepcion r)
  recibido d (transporte_falla true mensaje) = consultar d
  recibido d (transporte_falla false mensaje) = ok (fallo [] (sin_envio mensaje) false)
  recibido d otro_error = err gateway_fault

  abbrev pub enviado : Documento → Option (Perfil × Cufd) → Result Fault Salida
  enviado d none = ok (sin_correo d)
  enviado d (some (perfil, cufd)) = do
    desenlace ← recibido d (recepcion perfil cufd d)
    aplicar d desenlace

  abbrev pub is_sent : SiatStatus → Bool
  is_sent sent = true
  is_sent _ = false

  -- `enviar`, of the row that its id names.
  unfoldable pub enviar : Documento → Result Fault Salida
  enviar d = if is_sent d.siat_status then enviado d (contexto d) else ok (sin_correo d)
