-- ===== src/Fiscal/Dispatch/Outcome.antt =====
-- The cases of what is applied to a document.
use atlas_erpbackend.Prelude.{
  ℕ, ◌≡◌, refl, sym, subst, Bool, true, false, Option, none, some, List, if◌then◌else◌, ◌⊎◌, inl,
  inr, ok, >>=-ok, ok_injective,
}
use atlas_erpbackend.Fiscal.Dispatch.{
  EstadoFinal, offline, SiatMensaje, Motivo, consulta_sin_respuesta, Desenlace, estado_final,
  por_consultar, por_regenerar, fallo, Perfil, Cufd, Evento, Documento, Entorno, or_now,
}
use atlas_erpbackend.Text.{text_eq}
use atlas_erpbackend.Fiscal.Dispatch.Steps.{
  Salida, sin_correo, con_estado, tiene_correo, text_or_same, ventana_agotada, cuf_fuera_de_linea,
  con_cufd, con_evento, con_contexto, regenerar_fuera_de_linea, regenerado, en_espera, reintentado,
  aplicar,
}

abbrev pub is_final : Desenlace → Bool
is_final (estado_final _ _ _) = true
is_final _ = false

-- Off line: the status and what goes with it.
pub record IsOffline (d e : Documento) : Type 0 where
  pub status : e.siat_status ≡ offline
  pub emision : e.codigo_emision ≡ 2
  pub contingency : e.contingency_flag ≡ true
  pub not_again : e.next_attempt_at ≡ none
  pub attempts : e.attempt_count ≡ d.attempt_count

pub data Paso (E : Entorno) (d : Documento) : Desenlace → Salida → Type 0 where
  final_step :
      (estado : EstadoFinal) (codigo : ℕ) (mensajes : List SiatMensaje)
      → Paso E d
          (estado_final estado codigo mensajes)
          (record { documento = con_estado d estado codigo mensajes; correo = tiene_correo estado })
  offline_step :
      (o : Desenlace) (e : Documento)
      → is_final o ≡ false
      → IsOffline d e
      → Paso E d o (sin_correo e)
  unchanged_step : (o : Desenlace) → is_final o ≡ false → Paso E d o (sin_correo d)
  waiting_step :
      (o : Desenlace) (mensajes : List SiatMensaje) (motivo : Motivo)
      → is_final o ≡ false
      → ventana_agotada E d ≡ false
      → Paso E d o (en_espera E d mensajes motivo)

module _ (E : Entorno) (d : Documento) where
  con_cufd-IsOffline :
      (perfil : Perfil) (evento : Evento) (mensajes : List SiatMensaje) (cufd : Option Cufd)
      (e : Documento)
      → con_cufd E d perfil evento mensajes cufd ≡ ok e
      → (e ≡ d) ⊎ IsOffline d e
  con_cufd-IsOffline perfil evento mensajes none e h = inl (sym (ok_injective h))
  con_cufd-IsOffline perfil evento mensajes (some cufd) e h =
      let (cuf, made, h) = >>=-ok (cuf_fuera_de_linea E d perfil cufd) _ h in
      inr (
        subst (IsOffline d) (ok_injective h) (record {
          status = refl;
          emision = refl;
          contingency = refl;
          not_again = refl;
          attempts = refl;
        }))

  regenerar-IsOffline :
      (mensajes : List SiatMensaje) (o : Option (Perfil × Cufd)) (e : Documento)
      → con_contexto E d mensajes o ≡ ok e
      → (e ≡ d) ⊎ IsOffline d e
  regenerar-IsOffline mensajes none e h = inl (sym (ok_injective h))
  regenerar-IsOffline mensajes (some (perfil, cufd)) e h =
      of_evento (E.abrir perfil cufd (or_now E.now d.emitted_at)) h
    where
      of_evento :
          (evento : Option Evento)
          → con_evento E d perfil cufd mensajes evento ≡ ok e
          → (e ≡ d) ⊎ IsOffline d e
      of_evento none h = cc
      of_evento (some evento) h =
          con_cufd-IsOffline perfil evento mensajes
            (text_or_same (text_eq evento.cufd_evento_id cufd.id)
              (E.find_cufd evento.cufd_evento_id) cufd)
            e h

  regenerado-Paso :
      (o : Desenlace) (mensajes : List SiatMensaje) (s : Salida)
      → is_final o ≡ false
      → regenerado E d mensajes ≡ ok s
      → Paso E d o s
  unfolding regenerar_fuera_de_linea
  regenerado-Paso o mensajes s f h =
      let (e, made, h) = >>=-ok (regenerar_fuera_de_linea E d mensajes) _ h in
      subst (Paso E d o) (ok_injective h)
        (elim (regenerar-IsOffline mensajes (E.contexto d) e made) [
          | inl same ↦ subst (λ x. Paso E d o (sin_correo x)) (sym same) (unchanged_step o f)
          | inr off ↦ offline_step o e f off
        ])

  reintentado-Paso :
      (o : Desenlace) (mensajes : List SiatMensaje) (motivo : Motivo) (s : Salida)
      → is_final o ≡ false
      → reintentado E d mensajes motivo ≡ ok s
      → Paso E d o s
  reintentado-Paso o mensajes motivo s f h = by_window (ventana_agotada E d) refl h
    where
      by_window :
          (b : Bool)
          → ventana_agotada E d ≡ b
          → (if b then regenerado E d mensajes else ok (en_espera E d mensajes motivo)) ≡ ok s
          → Paso E d o s
      by_window true e h = regenerado-Paso o mensajes s f h
      by_window false e h = subst (Paso E d o) (ok_injective h) (waiting_step o mensajes motivo f e)

  -- Where an outcome is applied, it is written as it is if it is final; if not, the document goes off
  -- line, or stays as it is where its issuer or the credentials of the event are not found, or waits with
  -- its window still open.
  pub aplicar-Paso : (o : Desenlace) (s : Salida) → aplicar E d o ≡ ok s → Paso E d o s
  unfolding aplicar
  aplicar-Paso (estado_final estado codigo mensajes) s h =
      subst (Paso E d (estado_final estado codigo mensajes)) (ok_injective h)
        (final_step estado codigo mensajes)
  aplicar-Paso (por_regenerar mensajes) s h =
      regenerado-Paso (por_regenerar mensajes) mensajes s refl h
  aplicar-Paso (por_consultar mensajes) s h =
      reintentado-Paso (por_consultar mensajes) mensajes consulta_sin_respuesta s refl h
  aplicar-Paso (fallo mensajes motivo alerta) s h =
      reintentado-Paso (fallo mensajes motivo alerta) mensajes motivo s refl h
