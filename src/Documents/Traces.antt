-- ===== src/Documents/Traces.antt =====
-- A document among transactions that run at once. A decision reads the row and later writes it, and
-- anything may happen between; a posting holds the lock on the row, so it is one step.
pub mod Stages
pub mod Reachable
use atlas_erpbackend.Prelude.{
  get_elem?, ◌≡◌, ◌≢◌, ◌≤◌, ◌+◌, ℕ, zero, suc, refl, sym, ap, ◌∙◌, subst, Bool, true, false, not,
  ◌&&◌, Option, none, some, List, [], ◌∷◌, ◌++◌, Result, ok,
}
use atlas_erpbackend.Text.{Text}
use atlas_erpbackend.Money.Values.{Floats}
use atlas_erpbackend.Documents.Rows.{
  ApprovalDecision, AuthUser, AccountingPeriod, Journal, Document, Store, AuditEvent, draft_created,
  decided, document_posted, ApprovalStatus,
}
use atlas_erpbackend.Documents.Policy.{
  ResolvedApproval, ApprovalOrigin, resolve_approval_for_creation,
}
use atlas_erpbackend.Documents.Approval.{check_decision, apply_decision}
use atlas_erpbackend.Documents.Posting.{post_document, draft_row}

-- A decision that has read the row.
pub record Underway : Type 0 where
  pub read : Document
  pub user : AuthUser
  pub decision : ApprovalDecision

pub record System : Type 0 where
  pub store : Store
  pub underway : List Underway

module _ (F : Floats) (number_text : F.Number → Text) (seal : Document → Journal → Text)
    (period_of : Text → Option AccountingPeriod) where
  pub data Step (s : System) : System → Type 0 where
    check :
        (user : AuthUser) (decision : ApprovalDecision) (read : Document)
        → check_decision s.store user ≡ ok read
        → Step s (record s {
          underway = record { read = read; user = user; decision = decision } ∷ s.underway;
        })
    write :
        (i : ℕ) (u : Underway) (after : Store)
        → get_elem? s.underway i ≡ some u
        → apply_decision s.store u.read u.decision u.user.sub ≡ ok after
        → Step s (record s { store = after })
    post :
        (user : AuthUser) (after : Store)
        → post_document F number_text seal period_of s.store user ≡ ok after
        → Step s (record s { store = after })

-- A system with a draft that was just created.
abbrev pub created_system :
    Text → Text → Text → ResolvedApproval → AuthUser → Option Journal → System
created_system id legal_entity_id accounting_period_id approval creator journal = record {
  store = record {
    document = some (draft_row id legal_entity_id accounting_period_id approval creator);
    journal = journal;
    audit_log = (draft_created, creator.sub) ∷ [];
    posted_events = [];
  };
  underway = [];
}

abbrev pub decisions : List (AuditEvent × Text) → ℕ
decisions [] = 0
decisions ((decided d, actor) ∷ log) = suc (decisions log)
decisions ((draft_created, actor) ∷ log) = decisions log
decisions ((document_posted, actor) ∷ log) = decisions log

module _ (F : Floats) (number_text : F.Number → Text) (seal : Document → Journal → Text)
    (period_of : Text → Option AccountingPeriod) (start : System) where
  -- What follows from a start by steps.
  pub data Reach : System → Type 0 where
    here : Reach start
    next : {s t : System} → Reach s → Step F number_text seal period_of s t → Reach t
