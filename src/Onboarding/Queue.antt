-- ===== src/Onboarding/Queue.antt =====
-- What the figures of the queue count.
use atlas_erpbackend.Prelude.{
  ℕ, ◌+◌, ◌≡◌, ◌≢◌, ◌⊎◌, ◌≤◌, refl, subst, ==_iff, Bool, true, false, not, List, [], ◌∷◌, length,
  arith, Bool-cases, inl, inr,
}
use atlas_erpbackend.Onboarding.{
  OnboardingCaseStatus, OnboardingCaseSnapshot, OnboardingQueueSummary, open_case, in_progress,
  blocked, en_verificacion, rechazado, verificado, alta_pendiente, listo, completed, is_terminal,
  is_ready_to_activate, waits_for_motor, waits_for_review, waits_for_credentials, empty_summary,
  summarize_onboarding_queue,
}
use atlas_erpbackend.Onboarding.Figures.{count, count_rows-Steps, count-every, count-waiting}

-- A number of rows of which something holds: a row where it holds adds one, another adds nothing.
pub data Tally (P : OnboardingCaseSnapshot → Type 0)
    : List OnboardingCaseSnapshot → ℕ → Type 0 where
  no_row : Tally P [] 0
  hit :
      (row : OnboardingCaseSnapshot) {rows : List OnboardingCaseSnapshot} {n : ℕ}
      → P row
      → Tally P rows n
      → Tally P (row ∷ rows) (n + 1)
  miss :
      (row : OnboardingCaseSnapshot) {rows : List OnboardingCaseSnapshot} {n : ℕ}
      → ¬ P row
      → Tally P rows n
      → Tally P (row ∷ rows) n

-- A case that has all it needs to be activated.
pub record IsReady (row : OnboardingCaseSnapshot) : Type 0 where
  pub still_open : row.status ≢ completed
  pub checklist : row.has_checklist_items ≡ true
  pub done : row.pending_items ≡ 0
  pub contract : row.has_active_contract ≡ true
  pub motor : row.motor_approved ≡ true

-- The figures of a summary, against the rows.
pub record Counts (rows : List OnboardingCaseSnapshot) (t : OnboardingQueueSummary) : Type 0 where
  pub activados : Tally (λ row. row.status ≡ completed) rows t.activados
  pub abiertos : Tally (λ row. row.status ≢ completed) rows t.abiertos
  pub esperando_motor : Tally (λ row. row.status ≡ en_verificacion) rows t.esperando_motor
  pub revision_manual :
      Tally
        (λ row. (row.status ≡ OnboardingCaseStatus.revision_manual) ⊎ (row.status ≡ blocked))
        rows
        t.revision_manual
  pub esperando_credenciales :
      Tally (λ row. row.status ≡ alta_pendiente) rows t.esperando_credenciales
  pub listos_para_activar : Tally IsReady rows t.listos_para_activar
  pub every_row : t.abiertos + t.activados ≡ length rows
  pub waiting : t.esperando_motor + t.revision_manual + t.esperando_credenciales ≤ t.abiertos

abbrev Decides : (OnboardingCaseSnapshot → Bool) → (OnboardingCaseSnapshot → Type 0) → Type 0
Decides p P = (row : OnboardingCaseSnapshot) → (p row ≡ true → P row) × (p row ≡ false → ¬ P row)

count-Tally :
    (p : OnboardingCaseSnapshot → Bool) (P : OnboardingCaseSnapshot → Type 0)
    → Decides p P
    → (rows : List OnboardingCaseSnapshot) → Tally P rows (count p rows)
count-Tally p P d [] = no_row
count-Tally p P d (row ∷ rows) = elim (Bool-cases (p row)) [
  | inl e ↦ rw e (hit row ((d row).0 e) (count-Tally p P d rows))
  | inr e ↦ rw e (miss row ((d row).1 e) (count-Tally p P d rows))
]

is_completed : (s : OnboardingCaseStatus) → is_terminal s ≡ true → s ≡ completed
is_completed s h = ground arith

not_completed : (s : OnboardingCaseStatus) → is_terminal s ≡ false → s ≢ completed
not_completed s h e = true-false (subst (λ x. is_terminal x ≡ false) e h)
  where
    true-false : true ≡ false → ⊥
    true-false k = cc

terminal-Decides : Decides (λ row. is_terminal row.status) (λ row. row.status ≡ completed)
terminal-Decides row = (is_completed row.status, not_completed row.status)

not-terminal : (s : OnboardingCaseStatus) → s ≢ completed → is_terminal s ≡ false
not-terminal s h = elim (Bool-cases (is_terminal s)) [
  | inl e ↦ absurd (h (is_completed s e))
  | inr e ↦ e
]

open-Decides : Decides (λ row. not (is_terminal row.status)) (λ row. row.status ≢ completed)
open-Decides row = (
  λ h. not_completed row.status (ground arith),
  λ h still. still (is_completed row.status (ground arith)),
)

motor-Decides : Decides (λ row. waits_for_motor row.status) (λ row. row.status ≡ en_verificacion)
motor-Decides row = (waits row.status, waits_not row.status)
  where
    waits : (s : OnboardingCaseStatus) → waits_for_motor s ≡ true → s ≡ en_verificacion
    waits s h = ground arith

    waits_not : (s : OnboardingCaseStatus) → waits_for_motor s ≡ false → ¬ (s ≡ en_verificacion)
    waits_not s h e = cc (rw e at h)

credentials-Decides :
    Decides (λ row. waits_for_credentials row.status) (λ row. row.status ≡ alta_pendiente)
credentials-Decides row = (waits row.status, waits_not row.status)
  where
    waits : (s : OnboardingCaseStatus) → waits_for_credentials s ≡ true → s ≡ alta_pendiente
    waits s h = ground arith

    waits_not :
        (s : OnboardingCaseStatus) → waits_for_credentials s ≡ false → ¬ (s ≡ alta_pendiente)
    waits_not s h e = cc (rw e at h)

abbrev InReview : OnboardingCaseStatus → Type 0
InReview s = (s ≡ OnboardingCaseStatus.revision_manual) ⊎ (s ≡ blocked)

review-Decides : Decides (λ row. waits_for_review row.status) (λ row. InReview row.status)
review-Decides row = (waits row.status, waits_not row.status)
  where
    waits : (s : OnboardingCaseStatus) → waits_for_review s ≡ true → InReview s
    waits OnboardingCaseStatus.revision_manual h = inl refl
    waits blocked h = inr refl
    waits open_case h = cc
    waits in_progress h = cc
    waits en_verificacion h = cc
    waits rechazado h = cc
    waits verificado h = cc
    waits alta_pendiente h = cc
    waits listo h = cc
    waits completed h = cc

    waits_not : (s : OnboardingCaseStatus) → waits_for_review s ≡ false → ¬ InReview s
    waits_not s h (inl e) = cc (rw e at h)
    waits_not s h (inr e) = cc (rw e at h)

IsReady-Decides : Decides is_ready_to_activate IsReady
unfolding is_ready_to_activate
IsReady-Decides row = (ready, not_ready)
  where
    clash : true ≡ false → ⊥
    clash k = cc

    ready : is_ready_to_activate row ≡ true → IsReady row
    ready h = record {
      still_open = not_completed row.status (ground arith);
      checklist = ground arith;
      done = (==_iff row.pending_items 0).0 (ground arith);
      contract = ground arith;
      motor = ground arith;
    }

    not_ready : is_ready_to_activate row ≡ false → ¬ IsReady row
    not_ready h r =
        let open_now = not-terminal row.status r.still_open in
        clash (ground (arith, (==_iff row.pending_items 0).1 r.done))

-- Each figure of the summary of the queue is the number of the rows of which its description holds:
-- those with the status completed, the others, those in verification, those in manual review or blocked,
-- those that wait for their credentials, and those that are not completed, have a checklist with no item
-- left, an active contract and the approval of the engine. The open and the activated cases are together
-- all the rows, and the cases that wait for the engine, for a review or for credentials are no more than
-- the open ones.
pub summarize_onboarding_queue-Counts :
    (rows : List OnboardingCaseSnapshot) → Counts rows (summarize_onboarding_queue rows)
unfolding summarize_onboarding_queue
summarize_onboarding_queue-Counts rows =
    let h = count_rows-Steps empty_summary rows in
    record {
      activados = tally terminal-Decides h.activados;
      abiertos = tally open-Decides h.abiertos;
      esperando_motor = tally motor-Decides h.esperando_motor;
      revision_manual = tally review-Decides h.revision_manual;
      esperando_credenciales = tally credentials-Decides h.esperando_credenciales;
      listos_para_activar = tally IsReady-Decides h.listos_para_activar;
      every_row =
          omega (arith, h.activados, h.abiertos, count-every (λ row. is_terminal row.status) rows);
      waiting = omega (
        arith,
        h.abiertos,
        h.esperando_motor,
        h.revision_manual,
        h.esperando_credenciales,
        count-waiting rows,
      );
    }
  where
    tally :
        {p : OnboardingCaseSnapshot → Bool} {P : OnboardingCaseSnapshot → Type 0} {n : ℕ}
        → Decides p P
        → n ≡ 0 + count p rows
        → Tally P rows n
    tally {p} {P} d e = subst (Tally P rows) (omega (arith, e)) (count-Tally p P d rows)
