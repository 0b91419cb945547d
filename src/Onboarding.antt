-- ===== src/Onboarding.antt =====
-- The life of an onboarding case: modules/b2b-sales-crm/domain/onboarding-lifecycle.ts. A status is a
-- string of the source; the ten that it names are constructors.
pub mod Figures
pub mod Queue
use atlas_erpbackend.Prelude.{
  ℕ, ◌+◌, Bool, true, false, not, ◌&&◌, ◌||◌, Option, none, some, List, [], ◌∷◌, ◌++◌, keep, any,
  ◌==◌, if◌then◌else◌,
}
use atlas_erpbackend.Text.{Text, codes, text_eq, trim, to_upper}

pub data OnboardingCaseStatus : Type 0 where
  open_case in_progress blocked en_verificacion revision_manual rechazado : OnboardingCaseStatus
  verificado alta_pendiente listo completed : OnboardingCaseStatus

abbrev pub onboarding_case_statuses : List OnboardingCaseStatus
onboarding_case_statuses =
    open_case ∷ in_progress ∷ blocked ∷ en_verificacion ∷ revision_manual ∷ rechazado ∷ verificado
    ∷ alta_pendiente ∷ listo ∷ completed ∷ []

-- `status === ONBOARDING_TERMINAL_STATUS`
abbrev pub is_terminal : OnboardingCaseStatus → Bool
is_terminal completed = true
is_terminal _ = false

abbrev pub onboarding_open_statuses : List OnboardingCaseStatus
onboarding_open_statuses = keep (λ s. not (is_terminal s)) onboarding_case_statuses

pub data OnboardingScope : Type 0 where
  abiertos historial todos : OnboardingScope

unfoldable pub statuses_for_scope : OnboardingScope → List OnboardingCaseStatus
statuses_for_scope abiertos = onboarding_open_statuses
statuses_for_scope historial = completed ∷ []
statuses_for_scope todos = onboarding_case_statuses

pub data KybOutcome : Type 0 where
  aprobado kyb_rechazado kyb_revision_manual : KybOutcome

unfoldable pub status_for_kyb_outcome : KybOutcome → OnboardingCaseStatus
status_for_kyb_outcome aprobado = verificado
status_for_kyb_outcome kyb_rechazado = rechazado
status_for_kyb_outcome kyb_revision_manual = revision_manual

abbrev pub or_empty : Option Text → Text
or_empty none = []
or_empty (some t) = t

unfoldable pub normalize_kyb_outcome : Option Text → KybOutcome
normalize_kyb_outcome outcome =
    let normalized = to_upper (trim (or_empty outcome)) in
    if text_eq normalized (codes "APROBADO")
    then aprobado
    else if text_eq normalized (codes "RECHAZADO")
    then kyb_rechazado
    else kyb_revision_manual

pub record OnboardingCaseSnapshot : Type 0 where
  pub status : OnboardingCaseStatus
  pub pending_items : ℕ
  pub has_checklist_items : Bool
  pub has_active_contract : Bool
  pub motor_approved : Bool

pub record OnboardingQueueSummary : Type 0 where
  pub abiertos : ℕ
  pub esperando_motor : ℕ
  pub revision_manual : ℕ
  pub esperando_credenciales : ℕ
  pub listos_para_activar : ℕ
  pub activados : ℕ

unfoldable pub is_ready_to_activate : OnboardingCaseSnapshot → Bool
is_ready_to_activate row =
    not (is_terminal row.status)
    && row.has_checklist_items
    && row.pending_items == 0
    && row.has_active_contract
    && row.motor_approved

abbrev pub waits_for_motor : OnboardingCaseStatus → Bool
waits_for_motor en_verificacion = true
waits_for_motor _ = false

abbrev pub waits_for_review : OnboardingCaseStatus → Bool
waits_for_review OnboardingCaseStatus.revision_manual = true
waits_for_review blocked = true
waits_for_review _ = false

abbrev pub waits_for_credentials : OnboardingCaseStatus → Bool
waits_for_credentials alta_pendiente = true
waits_for_credentials _ = false

-- `if (b) n += 1`
abbrev pub bump : Bool → ℕ → ℕ
bump true n = n + 1
bump false n = n

-- One turn of the loop.
unfoldable pub count_row : OnboardingQueueSummary → OnboardingCaseSnapshot → OnboardingQueueSummary
count_row summary row =
    if is_terminal row.status
    then record summary { activados = summary.activados + 1 }
    else record summary {
      abiertos = summary.abiertos + 1;
      esperando_motor = bump (waits_for_motor row.status) summary.esperando_motor;
      revision_manual = bump (waits_for_review row.status) summary.revision_manual;
      esperando_credenciales =
          bump (waits_for_credentials row.status) summary.esperando_credenciales;
      listos_para_activar = bump (is_ready_to_activate row) summary.listos_para_activar;
    }

abbrev pub count_rows :
    OnboardingQueueSummary → List OnboardingCaseSnapshot → OnboardingQueueSummary
count_rows summary [] = summary
count_rows summary (row ∷ rows) = count_rows (count_row summary row) rows

abbrev pub empty_summary : OnboardingQueueSummary
empty_summary = record {
  abiertos = 0;
  esperando_motor = 0;
  revision_manual = 0;
  esperando_credenciales = 0;
  listos_para_activar = 0;
  activados = 0;
}

unfoldable pub summarize_onboarding_queue : List OnboardingCaseSnapshot → OnboardingQueueSummary
summarize_onboarding_queue rows = count_rows empty_summary rows
