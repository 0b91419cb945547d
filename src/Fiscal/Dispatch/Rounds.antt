-- ===== src/Fiscal/Dispatch/Rounds.antt =====
-- The turns of one document in the queue, with any answers at any times.
use atlas_erpbackend.Prelude.{
  ℕ, suc, ◌+◌, ◌≤◌, ◌<◌, max, ◌≡◌, refl, sym, ap, ◌∙◌, subst, Bool, true, false, ◌⊎◌, arith,
  if◌then◌else◌, some, inl, inr, Bool-cases, ok, err,
}
use atlas_erpbackend.Fiscal.Dispatch.{sent, Desenlace, Documento, Fault, Entorno}
use atlas_erpbackend.Fiscal.Dispatch.Steps.{Salida, enviar}
use atlas_erpbackend.Fiscal.Dispatch.Queue.{is_claimable, reclamado, rescatar, is_error, adelantar}
use atlas_erpbackend.Fiscal.Dispatch.Outcome.{Paso}
use atlas_erpbackend.Fiscal.Dispatch.Window.{
  enviar-Paso, rescatar-Paso, Paso-attempts, Paso-claimable,
}

-- The turns of a document `d`, with the number of claims: a claim with its sending, a claim whose sending
-- failed with an error of the program, a rescue, a request to retry.
pub data Rounds (most : ℕ) (d : Documento) : ℕ → Documento → Type 0 where
  start : Rounds most d 0 d
  send :
      {n : ℕ} {e : Documento} (E : Entorno) (s : Salida)
      → Rounds most d n e
      → E.online_max_attempts ≡ most
      → is_claimable e.siat_status ≡ true
      → enviar E (reclamado E.now e) ≡ ok s
      → Rounds most d (suc n) s.documento
  lose :
      {n : ℕ} {e : Documento} (E : Entorno) (f : Fault)
      → Rounds most d n e
      → is_claimable e.siat_status ≡ true
      → enviar E (reclamado E.now e) ≡ err f
      → Rounds most d (suc n) (reclamado E.now e)
  rescue :
      {n : ℕ} {e : Documento} (E : Entorno) (s : Salida)
      → Rounds most d n e
      → E.online_max_attempts ≡ most
      → e.siat_status ≡ sent
      → rescatar E e ≡ ok s
      → Rounds most d n s.documento
  retry :
      {n : ℕ} {e : Documento} (now : ℕ) → Rounds most d n e → Rounds most d n (adelantar now e).0

record IsBounded (most n : ℕ) (e : Documento) : Type 0 where
  counted : e.attempt_count ≡ n
  below : n ≤ max 1 most
  left : is_claimable e.siat_status ≡ true → (n ≡ 0) ⊎ (n < most)

adelantar-same :
    (now : ℕ) (e : Documento)
    → ((adelantar now e).0.attempt_count ≡ e.attempt_count)
      × ((adelantar now e).0.siat_status ≡ e.siat_status)
unfolding adelantar
adelantar-same now e = by_status (is_error e.siat_status)
  where
    changed : Bool → Documento × Bool
    changed b = if b then (record e { next_attempt_at = some now }, true) else (e, false)

    by_status :
        (b : Bool)
        → ((changed b).0.attempt_count ≡ e.attempt_count)
          × ((changed b).0.siat_status ≡ e.siat_status)
    by_status true = (refl, refl)
    by_status false = (refl, refl)

-- One more claim is within the bound.
claim_below :
    {most n : ℕ} {e : Documento}
    → IsBounded most n e
    → is_claimable e.siat_status ≡ true
    → suc n ≤ max 1 most
claim_below {most} {n} b c = elim (b.left c) [ inl none_yet ↦ omega arith | inr less ↦ omega arith ]

-- What is applied to a claimed document keeps the bound.
sent-IsBounded :
    {most n : ℕ} (E : Entorno) (c : Documento) {o : Desenlace} {s : Salida}
    → E.online_max_attempts ≡ most
    → c.siat_status ≡ sent
    → c.attempt_count ≡ n
    → n ≤ max 1 most
    → Paso E c o s
    → IsBounded most n s.documento
sent-IsBounded {most} {n} E c {o} {s} m e counted below p = record {
  counted = Paso-attempts E c p ∙ counted;
  below = below;
  left = λ k. inr (few (Paso-claimable E c p e k));
}
  where
    few : c.attempt_count < E.online_max_attempts → n < most
    few h = omega (arith, h, m, counted)

-- A document that is sent cannot be claimed.
claimed-IsBounded :
    {most n : ℕ} (c : Documento)
    → c.siat_status ≡ sent
    → c.attempt_count ≡ n
    → n ≤ max 1 most
    → IsBounded most n c
claimed-IsBounded c e counted below = record {
  counted = counted;
  below = below;
  left = λ k. cc (sym (ap is_claimable e) ∙ k);
}

Rounds-IsBounded :
    {most : ℕ} {d : Documento} {n : ℕ} {e : Documento}
    → d.attempt_count ≡ 0
    → Rounds most d n e
    → IsBounded most n e
Rounds-IsBounded h start = record { counted = h; below = omega arith; left = λ _. inl refl }
Rounds-IsBounded {most} h (send {n} {e} E s r m c k) =
    let b = Rounds-IsBounded h r in
    let counted : e.attempt_count + 1 ≡ suc n = omega (arith, b.counted) in
    elim (enviar-Paso E (reclamado E.now e) s k) [
      | inl same ↦
          subst (λ x. IsBounded most (suc n) x.documento) (sym same)
            (claimed-IsBounded (reclamado E.now e) refl counted (claim_below b c))
      | inr (o, p) ↦ sent-IsBounded E (reclamado E.now e) m refl counted (claim_below b c) p
    ]
Rounds-IsBounded h (lose {n} {e} E f r c k) =
    let b = Rounds-IsBounded h r in
    let counted : e.attempt_count + 1 ≡ suc n = omega (arith, b.counted) in
    claimed-IsBounded (reclamado E.now e) refl counted (claim_below b c)
Rounds-IsBounded h (rescue {n} {e} E s r m c k) =
    let b = Rounds-IsBounded h r in
    let (o, p) = rescatar-Paso E e s k in sent-IsBounded E e m c b.counted b.below p
Rounds-IsBounded h (retry {n} {e} now r) =
    let b = Rounds-IsBounded h r in
    let (attempts, status) = adelantar-same now e in
    record {
      counted = attempts ∙ b.counted;
      below = b.below;
      left = λ k. b.left (sym (ap is_claimable status) ∙ k);
    }

-- Whatever the authority answers and whenever, a document that starts with no attempt is claimed at most as
-- often as the attempts allowed, or once where none is allowed, and after that many claims it cannot be
-- claimed any more: the queue is done with it in the end.
pub Rounds-below :
    {most : ℕ} {d : Documento} {n : ℕ} {e : Documento}
    → d.attempt_count ≡ 0
    → Rounds most d n e
    → (n ≤ max 1 most) × (n ≡ max 1 most → is_claimable e.siat_status ≡ false)
Rounds-below {most} {d} {n} {e} h r =
    let b = Rounds-IsBounded h r in
    (
      b.below,
      λ k. elim (Bool-cases (is_claimable e.siat_status)) [
        | inl c ↦ absurd (elim (b.left c) [
          | inl none_yet ↦ omega (arith, k, none_yet)
          | inr less ↦ omega (arith, k, less)
        ])
        | inr c ↦ c
      ],
    )
