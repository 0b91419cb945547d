-- ===== src/Documents/Rows.antt =====
-- The rows that approval and posting read and write, and the errors that they answer with. A
-- document's row stands with its journal, its audit log and its events: all operations name one id.
use atlas_erpbackend.Prelude.{ℕ, Bool, true, false, Option, none, some, List, [], ◌∷◌}
use atlas_erpbackend.Text.{Text, text_eq}
use atlas_erpbackend.Posting.{PostingError}

-- `status` and `approvalStatus` are strings in the source: the ones that it names, and any other.
pub data DocumentStatus : Type 0 where
  draft posted : DocumentStatus
  other_status : Text → DocumentStatus

pub data ApprovalStatus : Type 0 where
  not_required pending approved rejected : ApprovalStatus
  other_approval : Text → ApprovalStatus

pub data ApprovalDecision : Type 0 where
  approve reject : ApprovalDecision

pub record AuthUser : Type 0 where
  pub sub : Text
  pub role_code : Option Text
  pub role : Option Text
  pub roles : List Text
  pub legal_entity_ids : List Text

pub record AccountingPeriod : Type 0 where
  pub is_open : Bool
  pub close_status : Text

pub record JournalLine : Type 0 where
  pub line_no : ℕ
  pub gl_account_id : Text
  pub debit : Text
  pub credit : Text

pub record Journal : Type 0 where
  pub id : Text
  pub posting_status : DocumentStatus
  pub posted_by : Option Text
  pub hash_sha256 : Option Text
  pub lines : List JournalLine

pub record Document : Type 0 where
  pub id : Text
  pub legal_entity_id : Text
  pub accounting_period_id : Text
  pub status : DocumentStatus
  pub approval_status : ApprovalStatus
  pub approval_policy_ref : Option Text
  pub created_by : Option Text
  pub approved_by : Option Text
  pub rejected_by : Option Text

-- `eventType` and `actorId` of the audit log.
pub data AuditEvent : Type 0 where
  draft_created document_posted : AuditEvent
  decided : ApprovalDecision → AuditEvent

pub record Store : Type 0 where
  pub document : Option Document
  pub journal : Option Journal
  pub audit_log : List (AuditEvent × Text)
  -- The ids of the documents of the events `accounting.document.posted` in the outbox.
  pub posted_events : List Text

pub data DocumentError : Type 0 where
  document_not_found journal_entry_not_found document_not_draft : DocumentError
  legal_entity_scope_required legal_entity_forbidden : DocumentError
  period_not_found period_closed : DocumentError
  approval_policy_unavailable approval_status_contradicts_policy : DocumentError
  approval_not_client_settable approval_policy_missing approval_required : DocumentError
  self_approval_forbidden : DocumentError
  not_pending_approval : DocumentStatus → ApprovalStatus → DocumentError
  invalid_journal : PostingError → DocumentError

abbrev pub is_draft : DocumentStatus → Bool
is_draft draft = true
is_draft _ = false

abbrev pub is_pending : ApprovalStatus → Bool
is_pending pending = true
is_pending _ = false

-- A text that a condition takes as true: there, and not empty.
abbrev pub is_truthy : Option Text → Bool
is_truthy none = false
is_truthy (some []) = false
is_truthy (some (_ ∷ _)) = true

abbrev pub is_text : Option Text → Text → Bool
is_text none t = false
is_text (some s) t = text_eq s t
