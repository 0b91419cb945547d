-- ===== src/Documents/Approval.antt =====
-- modules/accounting/documents/domain/document-approval.ts, and the transaction of
-- services/document-approval.service.ts. Times are left out.
use atlas_erpbackend.Prelude.{
  Bool, not, ◌&&◌, ◌||◌, Option, none, some, [], ◌∷◌, ◌++◌, if◌then◌else◌, Result, ok, err, ◌>>=◌,
  ◌>>◌, throw_if,
}
use atlas_erpbackend.Text.{Text}
use atlas_erpbackend.Documents.Rows.{
  not_required, pending, approved, rejected, other_approval, ApprovalDecision, approve, reject,
  AuthUser, Document, Store, decided, DocumentError, document_not_found, approval_policy_missing,
  approval_required, self_approval_forbidden, not_pending_approval, is_draft, is_pending, is_truthy,
  is_text,
}
use atlas_erpbackend.Documents.Access.{assert_can_access_legal_entity}

unfoldable pub assert_document_approved_for_posting : Document → Result DocumentError (Unit {0})
assert_document_approved_for_posting document = elim document.approval_status [
  | not_required ↦ throw_if (not (is_truthy document.approval_policy_ref)) approval_policy_missing
  | approved ↦ throw_if (not (is_truthy document.approved_by)) approval_required
  | pending ↦ err approval_required
  | rejected ↦ err approval_required
  | other_approval s ↦ err approval_required
]

unfoldable pub assert_pending_draft : Document → Result DocumentError (Unit {0})
assert_pending_draft document =
    throw_if (not (is_draft document.status) || not (is_pending document.approval_status))
      (not_pending_approval document.status document.approval_status)

unfoldable pub assert_can_decide : Document → Text → Result DocumentError (Unit {0})
assert_can_decide document actor_id = do
  throw_if (is_truthy document.created_by && is_text document.created_by actor_id)
      self_approval_forbidden
  assert_pending_draft document

abbrev pub or_not_found : Option Document → Result DocumentError Document
or_not_found none = err document_not_found
or_not_found (some document) = ok document

-- The part of `decide` that reads: `findByPk` takes no lock.
unfoldable pub check_decision : Store → AuthUser → Result DocumentError Document
check_decision store user = do
  document ← or_not_found store.document
  assert_can_access_legal_entity user document.legal_entity_id
  assert_can_decide document user.sub
  ok document

-- The values of the `UPDATE`.
abbrev pub decide_row : ApprovalDecision → Text → Document → Document
decide_row approve actor_id document = record document {
  approval_status = approved;
  approved_by = some actor_id;
}
decide_row reject actor_id document = record document {
  approval_status = rejected;
  rejected_by = some actor_id;
}

abbrev pub awaits_decision : Document → Bool
awaits_decision document = is_draft document.status && is_pending document.approval_status

-- The part of `decide` that writes: the conditional `UPDATE` and the audit log. `read` is the row that
-- `check_decision` gave; the row may have changed since. An error rolls the transaction back.
unfoldable pub apply_decision :
    Store → Document → ApprovalDecision → Text → Result DocumentError Store
apply_decision store read decision actor_id = elim store.document [
  | none ↦ err (not_pending_approval read.status read.approval_status)
  | some current ↦
      if awaits_decision current
      then ok (record store {
        document = some (decide_row decision actor_id current);
        audit_log = store.audit_log ++ ((decided decision, actor_id) ∷ []);
      })
      else err (not_pending_approval current.status current.approval_status)
]

-- `decide`, with nothing between its two parts.
unfoldable pub decide : Store → AuthUser → ApprovalDecision → Result DocumentError Store
decide store user decision = do
  document ← check_decision store user
  apply_decision store document decision user.sub
