-- ===== src/Tests/Dispatch.antt =====
-- A fiscal document that the authority rejects, one whose sending fails, and a claim of a table of two.
use atlas_erpbackend.Prelude.{
  ℕ, ◌≤◌, ◌≡◌, refl, false, Option, none, some, List, [], ◌∷◌, pos, Bool, max, All, any, ok,
}
use atlas_erpbackend.Text.{codes, text_eq}
use atlas_erpbackend.Fiscal.Cuf.{number}
use atlas_erpbackend.Fiscal.Codes.{accion_para}
use atlas_erpbackend.Fiscal.Dispatch.{
  queued, SiatRespuesta, Perfil, Cufd, Documento, Entorno, Llamada, contesta, transporte_falla,
  final_rejected, sin_envio, interpretar_recepcion,
}
use atlas_erpbackend.Fiscal.Dispatch.Steps.{
  Salida, sin_correo, con_estado, en_espera, ventana_agotada, aplicar, enviar,
}
use atlas_erpbackend.Fiscal.Dispatch.Queue.{is_claimable, reclamado, reclamar, elegidos}
use atlas_erpbackend.Fiscal.Dispatch.Interpret.{IsOwnRejection, enviar-IsOwnRejection}
use atlas_erpbackend.Fiscal.Dispatch.Window.{Waits, enviar-Waits}
use atlas_erpbackend.Fiscal.Dispatch.Rounds.{Rounds, start, send, Rounds-below}
use atlas_erpbackend.Fiscal.Dispatch.Claims.{reclamar-exclusive}

abbrev perfil_1 : Perfil
perfil_1 = record {
  id = codes "P";
  nit = number (pos 123456789);
  codigo_sucursal = pos 0;
  codigo_punto_venta = pos 0;
}

abbrev cufd_1 : Cufd
cufd_1 = record { id = codes "D"; codigo = codes "BQ"; codigo_control = codes "A1" }

-- At the time 5000, with three attempts within a minute, and a gateway that gives one answer to all.
abbrev gateway : Llamada → Entorno
gateway llamada = record {
  now = 5000;
  http_timeout_ms = 10000;
  online_max_attempts = 3;
  online_window_s = 60;
  contexto = λ d. some (perfil_1, cufd_1);
  recepcion = λ perfil cufd d. llamada;
  verificacion = λ perfil cufd d. llamada;
  abrir = λ perfil cufd t. none;
  find_cufd = λ id. none;
  reescribir = λ archivo cuf cufd excepcion. archivo;
}

abbrev en_cola : Documento
en_cola = record {
  id = codes "F1";
  siat_status = queued;
  codigo_emision = 1;
  attempt_count = 0;
  next_attempt_at = some 4000;
  sent_at = none;
  emitted_at = some 4000;
  codigo_estado_sin = none;
  mensajes = [];
  last_error = none;
  cuf = [];
  cufd = codes "BQ";
  cufd_id = codes "D";
  codigo_excepcion = 0;
  contingency_flag = false;
  event_id = none;
  archivo = record { gzip = []; sha256 = [] };
  fecha_emision = codes "2026-10-01T10:00:00.000";
  codigo_modalidad = pos 2;
  tipo_factura_documento = pos 1;
  codigo_documento_sector = pos 1;
  numero_factura = number (pos 7);
  receptor_tipo = some 5;
}

abbrev enviado : Documento
enviado = reclamado 5000 en_cola

-- 910 is a code of the document.
abbrev answer_902 : SiatRespuesta
answer_902 = record {
  codigo_estado = some 902;
  mensajes_list = some (record { codigo = 910; descripcion = [] } ∷ []);
}

abbrev refused : Salida
refused =
    sin_correo
      (con_estado enviado final_rejected 902 (record { codigo = 910; descripcion = [] } ∷ []))

refused_sent : enviar (gateway (contesta answer_902)) enviado ≡ ok refused
unfolding enviar aplicar interpretar_recepcion accion_para
refused_sent = refl

enviar-IsOwnRejection_example :
    (perfil : Perfil) × (cufd : Cufd) × (r : SiatRespuesta) × (◌≡◌ {A = Option (Perfil × Cufd)}
      (some (perfil_1, cufd_1))
      (some (perfil, cufd)))
    × (contesta answer_902 ≡ contesta r)
    × IsOwnRejection r
enviar-IsOwnRejection_example =
    enviar-IsOwnRejection (gateway (contesta answer_902)) enviado refused refl refused_sent refl

abbrev unreachable : Entorno
unreachable = gateway (transporte_falla false (codes "ECONNREFUSED"))

abbrev waiting : Salida
waiting = en_espera unreachable enviado [] (sin_envio (codes "ECONNREFUSED"))

waiting_sent : enviar unreachable enviado ≡ ok waiting
unfolding enviar aplicar ventana_agotada
waiting_sent = refl

enviar-Waits_example : Waits unreachable waiting.documento
enviar-Waits_example = enviar-Waits unreachable enviado waiting refl waiting_sent refl

first_turn : Rounds 3 en_cola 1 waiting.documento
first_turn = send unreachable waiting start refl refl waiting_sent

Rounds-below_example :
    (1 ≤ max 1 3) × (◌≡◌ {A = ℕ} 1 (max 1 3) → is_claimable waiting.documento.siat_status ≡ false)
Rounds-below_example = Rounds-below refl first_turn

abbrev dos_filas : List Documento
dos_filas = en_cola ∷ record en_cola { id = codes "F2" } ∷ []

abbrev ninguna : Documento → Bool
ninguna d = false

one_of_two : (reclamar 5000 1 ninguna dos_filas).1 ≡ codes "F1" ∷ []
unfolding reclamar elegidos
one_of_two = refl

reclamar-exclusive_example :
    All
      (λ x. any (text_eq x) (reclamar 5000 1 ninguna dos_filas).1 ≡ false)
      (reclamar 6000 10 ninguna (reclamar 5000 1 ninguna dos_filas).0).1
reclamar-exclusive_example = reclamar-exclusive 5000 6000 1 10 ninguna ninguna dos_filas
