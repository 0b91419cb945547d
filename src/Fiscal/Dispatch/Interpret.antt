-- ===== src/Fiscal/Dispatch/Interpret.antt =====
-- enviar and interpretarRecepcion, where a document is rejected.
use atlas_erpbackend.Prelude.{
  ℕ, ◌≡◌, ◌≢◌, refl, sym, ap, ◌∙◌, subst, Bool, true, false, ◌||◌, Option, none, some, List, [],
  ◌∷◌, All, any, arith, ◌==◌, ==_iff, if◌then◌else◌, ok, >>=-ok, ok_injective,
}
use mathlib.Core.Bool.{true≢false}
use atlas_erpbackend.Fiscal.Codes.{
  AccionSiat, desconocido, renovar_credenciales, transporte, envio, accion_para, rechazada,
  observada, validada, anulacion_confirmada,
}
use atlas_erpbackend.Fiscal.Dispatch.{
  sent, rejected, final_accepted, final_observed, final_rejected, final_voided, SiatMensaje,
  SiatRespuesta, Desenlace, estado_final, por_consultar, por_regenerar, fallo, or_empty, asks_query,
  asks_renewal, is_unknown, is_not_of_document, is_nil, codigos_de, por_estado,
  interpretar_recepcion, estado_no_previsto, codigo_ajeno, no_registrada, por_verificacion, Llamada,
  contesta, transporte_falla, otro_error, Perfil, Cufd, Documento, Entorno,
}
use atlas_erpbackend.Fiscal.Dispatch.Steps.{
  Salida, sin_correo, verificado, consultado, consultar, tras_consulta, recibido, enviado, is_sent,
  enviar,
}
use atlas_erpbackend.Fiscal.Dispatch.Outcome.{
  Paso, final_step, offline_step, unchanged_step, waiting_step, aplicar-Paso,
}

abbrev is_rejection : Desenlace → Bool
is_rejection (estado_final final_rejected _ _) = true
is_rejection _ = false

-- A code that is of the document: classified, but not as one to query, of the credentials, of the
-- transport or of the sending; and not 1009, which asks for new credentials too.
pub record IsOfDocument (code : ℕ) : Type 0 where
  pub known : accion_para code ≢ desconocido
  pub no_query : accion_para code ≢ AccionSiat.consultar
  pub no_renewal : accion_para code ≢ renovar_credenciales
  pub no_transport : accion_para code ≢ transporte
  pub no_sending : accion_para code ≢ envio
  pub not_1009 : code ≢ 1009

-- An answer that rejects the document itself: the state 902, with at least one message, each of which has
-- a code of the document.
pub record IsOwnRejection (r : SiatRespuesta) : Type 0 where
  pub state : r.codigo_estado ≡ some rechazada
  pub listed : codigos_de (or_empty r.mensajes_list) ≢ []
  pub of_document : All IsOfDocument (codigos_de (or_empty r.mensajes_list))

tests-IsOfDocument :
    (c : ℕ)
    → asks_query c ≡ false
    → asks_renewal c ≡ false
    → is_not_of_document c ≡ false
    → IsOfDocument c
tests-IsOfDocument c q w x = record {
  known = λ e. cc (rw (e, is_not_of_document) at x);
  no_query = λ e. cc (rw (e, asks_query) at q);
  no_renewal = λ e. cc (rw (e, asks_renewal) at w);
  no_transport = λ e. cc (rw (e, is_not_of_document) at x);
  no_sending = λ e. cc (rw (e, is_not_of_document) at x);
  not_1009 = by_action (accion_para c) w;
}
  where
    by_action :
        (a : AccionSiat)
        → (elim a [ renovar_credenciales ↦ true | _ ↦ c == 1009 ]) ≡ false
        → c ≢ 1009
    by_action a h e = ground arith

codes-IsOfDocument :
    (cs : List ℕ)
    → any asks_query cs ≡ false
    → any asks_renewal cs ≡ false
    → any is_not_of_document cs ≡ false
    → All IsOfDocument cs
codes-IsOfDocument [] q w x = tt
codes-IsOfDocument (c ∷ cs) q w x = (
  tests-IsOfDocument c (ground arith) (ground arith) (ground arith),
  codes-IsOfDocument cs (ground arith) (ground arith) (ground arith),
)

not-nil : (cs : List ℕ) → is_nil cs ≡ false → cs ≢ []
not-nil cs h e = cc (rw e at h)

-- The tests of `interpretarRecepcion`, in their order.
by_tests :
    (n : ℕ) (ms : List SiatMensaje) (v o r q w x : Bool)
    → is_rejection (
        if v
        then estado_final final_accepted validada ms
        else if o
        then estado_final final_observed observada ms
        else if r
        then if q
          then por_consultar ms
          else if w
          then por_regenerar ms
          else if x
          then fallo ms codigo_ajeno (any is_unknown (codigos_de ms) || is_nil (codigos_de ms))
          else estado_final final_rejected rechazada ms
        else fallo ms (estado_no_previsto (some n)) true)
      ≡ true
    → (r ≡ true) × (q ≡ false) × (w ≡ false) × (x ≡ false)
by_tests n ms true o r q w x h = cc
by_tests n ms false true r q w x h = cc
by_tests n ms false false true true w x h = cc
by_tests n ms false false true false true x h = cc
by_tests n ms false false true false false true h = cc
by_tests n ms false false true false false false h = (refl, refl, refl, refl)
by_tests n ms false false false q w x h = cc

interpretar_recepcion-IsOwnRejection :
    (r : SiatRespuesta) → is_rejection (interpretar_recepcion r) ≡ true → IsOwnRejection r
unfolding interpretar_recepcion
interpretar_recepcion-IsOwnRejection r h = by_state r.codigo_estado refl h
  where
    by_state :
        (o : Option ℕ)
        → r.codigo_estado ≡ o
        → is_rejection (por_estado o (or_empty r.mensajes_list)) ≡ true
        → IsOwnRejection r
    by_state none e h = cc
    by_state (some n) e h =
        let ms = or_empty r.mensajes_list in
        let cs = codigos_de ms in
        let (is_902, no_query, no_renewal, rest) =
          by_tests n ms (n == validada) (n == observada) (n == rechazada) (any asks_query cs)
            (any asks_renewal cs) (is_nil cs || any is_not_of_document cs) h in
        let of_document : any is_not_of_document cs ≡ false = ground arith in
        record {
          state = e ∙ ap some ((==_iff n rechazada).0 is_902);
          listed = not-nil cs (ground arith);
          of_document = codes-IsOfDocument cs no_query no_renewal of_document;
        }

module _ (E : Entorno) (d : Documento) where
  por_verificacion-not_rejected :
      (o : Option ℕ) (ms : List SiatMensaje) → is_rejection (por_verificacion o ms) ≡ false
  por_verificacion-not_rejected none ms = refl
  por_verificacion-not_rejected (some n) ms =
      by_code (n == validada) (n == observada) (n == anulacion_confirmada)
    where
      by_code :
          (v o a : Bool)
          → is_rejection (
              if v
              then estado_final final_accepted validada ms
              else if o
              then estado_final final_observed observada ms
              else if a
              then estado_final final_voided anulacion_confirmada ms
              else fallo ms no_registrada false)
            ≡ false
      by_code true o a = refl
      by_code false true a = refl
      by_code false false true = refl
      by_code false false false = refl

  -- The query never rejects.
  consultar-not_rejected : (o : Desenlace) → consultar E d ≡ ok o → is_rejection o ≡ false
  unfolding consultar
  consultar-not_rejected o h = by_context (E.contexto d) h
    where
      by_call : (l : Llamada) → verificado E l ≡ ok o → is_rejection o ≡ false
      by_call (contesta r) h =
          subst (λ x. is_rejection x ≡ false) (ok_injective h)
            (por_verificacion-not_rejected r.codigo_estado (or_empty r.mensajes_list))
      by_call (transporte_falla b m) h = subst (λ x. is_rejection x ≡ false) (ok_injective h) refl
      by_call otro_error h = cc

      by_context : (c : Option (Perfil × Cufd)) → consultado E d c ≡ ok o → is_rejection o ≡ false
      by_context none h = subst (λ x. is_rejection x ≡ false) (ok_injective h) refl
      by_context (some (perfil, cufd)) h = by_call (E.verificacion perfil cufd d) h

  tras_consulta-IsOwnRejection :
      (i o : Desenlace) → tras_consulta E d i ≡ ok o → is_rejection o ≡ true → is_rejection i ≡ true
  tras_consulta-IsOwnRejection (por_consultar ms) o h k = cc (sym k ∙ consultar-not_rejected o h)
  tras_consulta-IsOwnRejection (estado_final e c ms) o h k =
      subst (λ x. is_rejection x ≡ true) (sym (ok_injective h)) k
  tras_consulta-IsOwnRejection (por_regenerar ms) o h k =
      subst (λ x. is_rejection x ≡ true) (sym (ok_injective h)) k
  tras_consulta-IsOwnRejection (fallo ms m a) o h k =
      subst (λ x. is_rejection x ≡ true) (sym (ok_injective h)) k

  recibido-IsOwnRejection :
      (l : Llamada) (o : Desenlace)
      → recibido E d l ≡ ok o
      → is_rejection o ≡ true
      → (r : SiatRespuesta) × (l ≡ contesta r) × IsOwnRejection r
  recibido-IsOwnRejection (contesta r) o h k = (
    r,
    refl,
    interpretar_recepcion-IsOwnRejection r
        (tras_consulta-IsOwnRejection (interpretar_recepcion r) o h k),
  )
  recibido-IsOwnRejection (transporte_falla true m) o h k = cc (sym k ∙ consultar-not_rejected o h)
  recibido-IsOwnRejection (transporte_falla false m) o h k =
      absurd (true≢false (sym k ∙ ap is_rejection (sym (ok_injective h))))
  recibido-IsOwnRejection otro_error o h k = cc

  Paso-rejected :
      (o : Desenlace) (s : Salida)
      → Paso E d o s
      → d.siat_status ≡ sent
      → s.documento.siat_status ≡ rejected
      → is_rejection o ≡ true
  Paso-rejected _ _ (final_step final_accepted c ms) e h = cc h
  Paso-rejected _ _ (final_step final_observed c ms) e h = cc h
  Paso-rejected _ _ (final_step final_rejected c ms) e h = refl
  Paso-rejected _ _ (final_step final_voided c ms) e h = cc h
  Paso-rejected _ _ (offline_step o e' f off) e h = cc (sym off.status ∙ h)
  Paso-rejected _ _ (unchanged_step o f) e h = cc (sym e ∙ h)
  Paso-rejected _ _ (waiting_step o ms m f w) e h = cc h

  -- A document that was claimed is written as REJECTED by its sending only where the authority answered the
  -- sending itself with the state 902 and at least one message, and each message has a classified code
  -- that is neither one to query, nor one of the credentials, nor 1009, nor one of the transport or of the
  -- sending: no query and no failed call rejects it, nor does a code that is not known.
  pub enviar-IsOwnRejection :
      (s : Salida)
      → d.siat_status ≡ sent
      → enviar E d ≡ ok s
      → s.documento.siat_status ≡ rejected
      → (perfil : Perfil) × (cufd : Cufd) × (r : SiatRespuesta) × (E.contexto d
          ≡ some (perfil, cufd))
        × (E.recepcion perfil cufd d ≡ contesta r)
        × IsOwnRejection r
  unfolding enviar
  enviar-IsOwnRejection s e h k = by_context (E.contexto d) refl (
      subst (λ b. (if b then enviado E d (E.contexto d) else ok (sin_correo d)) ≡ ok s)
        (ap (is_sent E) e) h)
    where
      by_context :
          (c : Option (Perfil × Cufd))
          → E.contexto d ≡ c
          → enviado E d c ≡ ok s
          → (perfil : Perfil) × (cufd : Cufd) × (r : SiatRespuesta) × (E.contexto d
              ≡ some (perfil, cufd))
            × (E.recepcion perfil cufd d ≡ contesta r)
            × IsOwnRejection r
      by_context none f h = cc (sym e ∙ ap (λ x. x.documento.siat_status) (ok_injective h) ∙ k)
      by_context (some (perfil, cufd)) f h =
          let (o, got, h) = >>=-ok (recibido E d (E.recepcion perfil cufd d)) _ h in
          let (r, answer, own) =
            recibido-IsOwnRejection (E.recepcion perfil cufd d) o got
              (Paso-rejected o s (aplicar-Paso E d o s h) e k) in
          (perfil, cufd, r, f, answer, own)
