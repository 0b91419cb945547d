-- ===== src/Fiscal/Dispatch.antt =====
-- The queue of fiscal documents: src/modules/fiscal/siat/application/siat-dispatch.service.ts. A call
-- has one clock reading, where the code reads the clock again at each of its steps. What other
-- services answer is a parameter: the gateway, the contingencies, the reads of the issuer, and the
-- rewriting of a compressed file.
pub mod Steps
pub mod Queue
pub mod Outcome
pub mod Interpret
pub mod Window
pub mod Rounds
pub mod Claims
use atlas_erpbackend.Prelude.{
  ℕ, zero, suc, ◌+◌, ◌-◌, ◌*◌, ◌^◌, min, Bool, true, false, ◌&&◌, ◌||◌, Option, none, some, List,
  [], ◌∷◌, ◌++◌, map, ℤ, pos, ltb, leb, ◌==◌, if◌then◌else◌, is_some, keep, take, any, Result, ok,
  err, ◌>>=◌,
}
use atlas_erpbackend.Text.{Text, text_eq}
use atlas_erpbackend.Fiscal.Cuf.{FieldValue, CufInput, CufInputError, number, calcular_cuf}
use atlas_erpbackend.Fiscal.Codes.{
  AccionSiat, consultar, renovar_credenciales, desconocido, transporte, envio, accion_para,
  rechazada, observada, anulacion_confirmada, validada,
}

pub data SiatStatus : Type 0 where
  queued sent accepted observed rejected voided error offline packaged : SiatStatus

pub record SiatMensaje : Type 0 where
  pub codigo : ℕ
  pub descripcion : Text

pub record SiatRespuesta : Type 0 where
  pub codigo_estado : Option ℕ
  pub mensajes_list : Option (List SiatMensaje)

-- Why a document waits.
pub data Motivo : Type 0 where
  estado_no_previsto : Option ℕ → Motivo
  codigo_ajeno sin_emisor no_registrada consulta_sin_respuesta : Motivo
  sin_envio sin_respuesta : Text → Motivo

-- The states that end a document's turn.
pub data EstadoFinal : Type 0 where
  final_accepted final_observed final_rejected final_voided : EstadoFinal

abbrev pub status_of : EstadoFinal → SiatStatus
status_of final_accepted = accepted
status_of final_observed = observed
status_of final_rejected = rejected
status_of final_voided = voided

pub data Desenlace : Type 0 where
  estado_final : EstadoFinal → ℕ → List SiatMensaje → Desenlace
  por_consultar : List SiatMensaje → Desenlace
  por_regenerar : List SiatMensaje → Desenlace
  fallo : List SiatMensaje → Motivo → Bool → Desenlace

abbrev pub or_empty : Option (List SiatMensaje) → List SiatMensaje
or_empty none = []
or_empty (some mensajes) = mensajes

abbrev pub asks_query : ℕ → Bool
asks_query codigo = elim (accion_para codigo) [ consultar ↦ true | _ ↦ false ]

abbrev pub asks_renewal : ℕ → Bool
asks_renewal codigo = elim (accion_para codigo) [ renovar_credenciales ↦ true | _ ↦ codigo == 1009 ]

abbrev pub is_unknown : ℕ → Bool
is_unknown codigo = elim (accion_para codigo) [ desconocido ↦ true | _ ↦ false ]

abbrev pub is_not_of_document : ℕ → Bool
is_not_of_document codigo = elim (accion_para codigo) [
  | desconocido ↦ true
  | transporte ↦ true
  | envio ↦ true
  | _ ↦ false
]

abbrev pub is_nil : List ℕ → Bool
is_nil [] = true
is_nil (c ∷ cs) = false

-- The answer 902, by the codes of its messages.
abbrev pub interpretar_rechazo : List SiatMensaje → List ℕ → Desenlace
interpretar_rechazo mensajes codigos =
    if any asks_query codigos
    then por_consultar mensajes
    else if any asks_renewal codigos
    then por_regenerar mensajes
    else if is_nil codigos || any is_not_of_document codigos
    then fallo mensajes codigo_ajeno (any is_unknown codigos || is_nil codigos)
    else estado_final final_rejected rechazada mensajes

abbrev pub codigos_de : List SiatMensaje → List ℕ
codigos_de mensajes = map (λ m. m.codigo) mensajes

abbrev pub por_estado : Option ℕ → List SiatMensaje → Desenlace
por_estado none mensajes = fallo mensajes (estado_no_previsto none) true
por_estado (some estado) mensajes =
    if estado == validada
    then estado_final final_accepted validada mensajes
    else if estado == observada
    then estado_final final_observed observada mensajes
    else if estado == rechazada
    then interpretar_rechazo mensajes (codigos_de mensajes)
    else fallo mensajes (estado_no_previsto (some estado)) true

unfoldable pub interpretar_recepcion : SiatRespuesta → Desenlace
interpretar_recepcion respuesta =
    por_estado respuesta.codigo_estado (or_empty respuesta.mensajes_list)

-- What `verificacionEstadoFactura` answered.
abbrev pub por_verificacion : Option ℕ → List SiatMensaje → Desenlace
por_verificacion none mensajes = fallo mensajes no_registrada false
por_verificacion (some estado) mensajes =
    if estado == validada
    then estado_final final_accepted validada mensajes
    else if estado == observada
    then estado_final final_observed observada mensajes
    else if estado == anulacion_confirmada
    then estado_final final_voided anulacion_confirmada mensajes
    else fallo mensajes no_registrada false

-- A call of the gateway: an answer, a failure of the transport and whether the body went out, or another
-- error.
pub data Llamada : Type 0 where
  contesta : SiatRespuesta → Llamada
  transporte_falla : Bool → Text → Llamada
  otro_error : Llamada

pub record Perfil : Type 0 where
  pub id : Text
  pub nit : FieldValue
  pub codigo_sucursal : ℤ
  pub codigo_punto_venta : ℤ

pub record Cufd : Type 0 where
  pub id : Text
  pub codigo : Text
  pub codigo_control : Text

pub record Evento : Type 0 where
  pub id : Text
  pub cufd_evento_id : Text

-- A compressed file and its hash.
pub record Archivo : Type 0 where
  pub gzip : List ℕ
  pub sha256 : Text

-- A row of electronic_tax_document.
pub record Documento : Type 0 where
  pub id : Text
  pub siat_status : SiatStatus
  pub codigo_emision : ℕ
  pub attempt_count : ℕ
  pub next_attempt_at : Option ℕ
  pub sent_at : Option ℕ
  pub emitted_at : Option ℕ
  pub codigo_estado_sin : Option ℕ
  pub mensajes : List SiatMensaje
  pub last_error : Option Motivo
  pub cuf : Text
  pub cufd : Text
  pub cufd_id : Text
  pub codigo_excepcion : ℕ
  pub contingency_flag : Bool
  pub event_id : Option Text
  pub archivo : Archivo
  pub fecha_emision : Text
  pub codigo_modalidad : ℤ
  pub tipo_factura_documento : ℤ
  pub codigo_documento_sector : ℤ
  pub numero_factura : FieldValue
  pub receptor_tipo : Option ℕ

pub data Fault : Type 0 where
  gateway_fault : Fault
  event_fault : Fault
  cuf_fault : CufInputError → Fault

-- The services around the queue, at one clock reading for a whole sending.
pub record Entorno : Type 0 where
  pub now : ℕ
  pub http_timeout_ms : ℕ
  pub online_max_attempts : ℕ
  pub online_window_s : ℕ
  pub contexto : Documento → Option (Perfil × Cufd)
  pub recepcion : Perfil → Cufd → Documento → Llamada
  pub verificacion : Perfil → Cufd → Documento → Llamada
  pub abrir : Perfil → Cufd → ℕ → Option Evento
  pub find_cufd : Text → Option Cufd
  pub reescribir : Archivo → Text → Text → ℕ → Archivo

abbrev pub espera_maxima_ms : ℕ
espera_maxima_ms = 60000

abbrev pub tipo_documento_nit : ℕ
tipo_documento_nit = 5

abbrev pub or_now : ℕ → Option ℕ → ℕ
or_now now none = now
or_now now (some t) = t

abbrev pub lift_cuf {ℓ} : {A : Type ℓ} → Result CufInputError A → Result Fault A
lift_cuf (ok a) = ok a
lift_cuf (err e) = err (cuf_fault e)

abbrev pub excepcion_de : Option ℕ → ℕ
excepcion_de none = 0
excepcion_de (some tipo) = if tipo == tipo_documento_nit then 1 else 0
