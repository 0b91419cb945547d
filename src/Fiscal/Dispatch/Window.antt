-- ===== src/Fiscal/Dispatch/Window.antt =====
-- ventanaAgotada and the wait of aplicar.
use atlas_erpbackend.Prelude.{
  ℕ, zero, suc, ◌+◌, ◌≤◌, ◌<◌, ◌^◌, ◌≡◌, refl, sym, ap, ◌∙◌, Bool, true, false, ◌⊎◌, Option, none,
  some, arith, if◌then◌else◌, inl, inr, ok, >>=-ok, ok_injective,
}
use native.Mathlib.Nat.{pow-suc}
use atlas_erpbackend.Fiscal.Dispatch.{
  final_accepted, final_observed, final_rejected, final_voided, sent, error, Desenlace, Perfil,
  Cufd, Documento, Entorno,
}
use atlas_erpbackend.Fiscal.Dispatch.Steps.{
  Salida, sin_correo, ventana_agotada, espera, is_sent, consultar, recibido, enviado, enviar,
}
use atlas_erpbackend.Fiscal.Dispatch.Queue.{is_claimable, rescatar}
use atlas_erpbackend.Fiscal.Dispatch.Outcome.{
  Paso, final_step, offline_step, unchanged_step, waiting_step, aplicar-Paso,
}

power_positive : (n : ℕ) → 1 ≤ 2 ^ n
power_positive zero = omega arith
power_positive (suc n) = rw pow-suc (omega (arith, power_positive n))

-- A document that waits: its attempts are not used up, and the next comes within a minute.
pub record Waits (E : Entorno) (d : Documento) : Type 0 where
  pub attempts_left : d.attempt_count < E.online_max_attempts
  pub at : ℕ
  pub planned : d.next_attempt_at ≡ some at
  pub later : E.now < at
  pub soon : at ≤ E.now + 60000

module _ (E : Entorno) (d : Documento) where
  open_window : ventana_agotada E d ≡ false → d.attempt_count < E.online_max_attempts
  unfolding ventana_agotada
  open_window h = ground arith

  Paso-Waits :
      {o : Desenlace} {s : Salida}
      → Paso E d o s
      → d.siat_status ≡ sent
      → s.documento.siat_status ≡ error
      → Waits E s.documento
  Paso-Waits (final_step final_accepted c ms) e h = cc h
  Paso-Waits (final_step final_observed c ms) e h = cc h
  Paso-Waits (final_step final_rejected c ms) e h = cc h
  Paso-Waits (final_step final_voided c ms) e h = cc h
  Paso-Waits (offline_step o e' f off) e h = cc (sym off.status ∙ h)
  Paso-Waits (unchanged_step o f) e h = cc (sym e ∙ h)
  Paso-Waits (waiting_step o ms m f open_yet) e h = record {
    attempts_left = open_window open_yet;
    at = E.now + espera E d.attempt_count;
    planned = refl;
    later = omega (arith, power_positive d.attempt_count);
    soon = omega arith;
  }

  pub Paso-attempts :
      {o : Desenlace} {s : Salida} → Paso E d o s → s.documento.attempt_count ≡ d.attempt_count
  Paso-attempts (final_step estado c ms) = refl
  Paso-attempts (offline_step o e' f off) = off.attempts
  Paso-attempts (unchanged_step o f) = refl
  Paso-attempts (waiting_step o ms m f open_yet) = refl

  -- A sending applies an outcome, or leaves the document as it is.
  pub enviar-Paso :
      (s : Salida) → enviar E d ≡ ok s → (s ≡ sin_correo d) ⊎ ((o : Desenlace) × Paso E d o s)
  unfolding enviar
  enviar-Paso s h = by_status (is_sent E d.siat_status) h
    where
      by_context :
          (c : Option (Perfil × Cufd))
          → enviado E d c ≡ ok s
          → (s ≡ sin_correo d) ⊎ ((o : Desenlace) × Paso E d o s)
      by_context none h = inl (sym (ok_injective h))
      by_context (some (perfil, cufd)) h =
          let (o, got, h) = >>=-ok (recibido E d (E.recepcion perfil cufd d)) _ h in
          inr (o, aplicar-Paso E d o s h)

      by_status :
          (b : Bool)
          → (if b then enviado E d (E.contexto d) else ok (sin_correo d)) ≡ ok s
          → (s ≡ sin_correo d) ⊎ ((o : Desenlace) × Paso E d o s)
      by_status true h = by_context (E.contexto d) h
      by_status false h = inl (sym (ok_injective h))

  -- A claimed document that its sending leaves as ERROR has attempts left, and its next attempt is planned
  -- after now and within the next minute.
  pub enviar-Waits :
      (s : Salida)
      → d.siat_status ≡ sent
      → enviar E d ≡ ok s
      → s.documento.siat_status ≡ error
      → Waits E s.documento
  enviar-Waits s e h k = elim (enviar-Paso s h) [
    | inl same ↦ cc (sym e ∙ sym (ap (λ x. x.documento.siat_status) same) ∙ k)
    | inr (o, p) ↦ Paso-Waits p e k
  ]

  -- What a claimed document becomes can be claimed again only with attempts left.
  pub Paso-claimable :
      {o : Desenlace} {s : Salida}
      → Paso E d o s
      → d.siat_status ≡ sent
      → is_claimable s.documento.siat_status ≡ true
      → d.attempt_count < E.online_max_attempts
  Paso-claimable (final_step final_accepted c ms) e h = cc h
  Paso-claimable (final_step final_observed c ms) e h = cc h
  Paso-claimable (final_step final_rejected c ms) e h = cc h
  Paso-claimable (final_step final_voided c ms) e h = cc h
  Paso-claimable (offline_step o e' f off) e h = cc (sym (ap is_claimable off.status) ∙ h)
  Paso-claimable (unchanged_step o f) e h = cc (sym (ap is_claimable e) ∙ h)
  Paso-claimable (waiting_step o ms m f open_yet) e h = open_window open_yet

  pub rescatar-Paso : (s : Salida) → rescatar E d ≡ ok s → (o : Desenlace) × Paso E d o s
  unfolding rescatar
  rescatar-Paso s h = let (o, got, h) = >>=-ok (consultar E d) _ h in (o, aplicar-Paso E d o s h)
