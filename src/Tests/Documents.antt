-- ===== src/Tests/Documents.antt =====
-- A manual document that is approved and posted.
use atlas_erpbackend.Prelude.{
  ℕ, ◌≡◌, ◌↔◌, ◌≤◌, refl, true, Option, none, some, List, [], ◌∷◌, map, ◌+ℤ◌, ok, length,
}
use atlas_erpbackend.Text.{Text, codes, trim, is_space, to_upper}
use atlas_erpbackend.Text.Decimal.{print}
use atlas_erpbackend.Money.Amount.{
  to_minor_units, minor_of_text, minor_of_parts, matches_amount, starts_negative, strip_sign,
}
use atlas_erpbackend.Posting.{
  JournalLineAmount, validate, add_lines, line_sides, sides, cents, cent_amount,
}
use atlas_erpbackend.Posting.Balance.{IsDoubleEntry, validate_iff}
use atlas_erpbackend.Documents.Rows.{
  DocumentStatus, ApprovalStatus, ApprovalDecision, AuthUser, AccountingPeriod, Journal, Document,
  Store, AuditEvent,
}
use atlas_erpbackend.Documents.Access.{
  has_role, assert_can_access_legal_entity, assert_period_is_open,
}
use atlas_erpbackend.Documents.Policy.{
  ApprovalOrigin, ResolvedApproval, all_manual_policy_ref, is_known_approval_policy,
  evaluate_approval_policy, resolve_approval_for_creation,
}
use atlas_erpbackend.Documents.Approval.{
  check_decision, apply_decision, assert_can_decide, assert_pending_draft,
  assert_document_approved_for_posting,
}
use atlas_erpbackend.Documents.Posting.{post_document, draft_row, amounts_of}
use atlas_erpbackend.Documents.Guards.{Posted, post_document-Posted}
use atlas_erpbackend.Documents.Traces.{System, Underway, Step, Reach, created_system, decisions}
use atlas_erpbackend.Documents.Traces.Stages.{Authorised}
use atlas_erpbackend.Documents.Traces.Reachable.{Reach-Authorised}
use atlas_erpbackend.Tests.Numbers.{naturals}

abbrev user : Text → AuthUser
user name = record {
  sub = name;
  role_code = none;
  role = some (codes "contador");
  roles = [];
  legal_entity_ids = codes "E1" ∷ [];
}

abbrev ana : AuthUser
ana = user (codes "ana")

abbrev bob : AuthUser
bob = user (codes "bob")

abbrev entry : Journal
entry = record {
  id = codes "J1";
  posting_status = DocumentStatus.draft;
  posted_by = none;
  hash_sha256 = none;
  lines =
      record {
        line_no = 1;
        gl_account_id = codes "1101";
        debit = codes "10.50";
        credit = codes "0.00";
      }
      ∷ (record {
        line_no = 2;
        gl_account_id = codes "4101";
        debit = codes "0";
        credit = codes "10.5";
      }
          ∷ []);
}

abbrev seal : Document → Journal → Text
seal document journal = codes "hash"

abbrev period_of : Text → Option AccountingPeriod
period_of id = some (record { is_open = true; close_status = codes "OPEN" })

abbrev lines : List (JournalLineAmount ℕ)
lines = map (amounts_of naturals print seal period_of) entry.lines

validate_iff_example : (validate naturals print lines ≡ ok tt) ↔ IsDoubleEntry naturals print lines
validate_iff_example = validate_iff naturals print lines

abbrev approval : ResolvedApproval
approval = record {
  approval_status = ApprovalStatus.pending;
  approval_policy_ref = all_manual_policy_ref;
}

abbrev policy : Option Text
policy = some (codes "ALL_MANUAL_REQUIRE_APPROVAL")

resolved_pending : resolve_approval_for_creation ApprovalOrigin.manual policy none ≡ ok approval
unfolding resolve_approval_for_creation evaluate_approval_policy is_known_approval_policy
resolved_pending = refl

abbrev created : System
created = created_system (codes "D1") (codes "E1") (codes "P1") approval ana (some entry)

abbrev new_row : Document
new_row = draft_row (codes "D1") (codes "E1") (codes "P1") approval ana

abbrev approved_row : Document
approved_row = record new_row {
  approval_status = ApprovalStatus.approved;
  approved_by = some (codes "bob");
}

abbrev approved_store : Store
approved_store = record created.store {
  document = some approved_row;
  audit_log =
      (AuditEvent.draft_created, codes "ana")
      ∷ ((AuditEvent.decided ApprovalDecision.approve, codes "bob") ∷ []);
}

abbrev posted_row : Document
posted_row = record approved_row { status = DocumentStatus.posted }

abbrev posted_store : Store
posted_store = record {
  document = some posted_row;
  journal = some (record entry {
    posting_status = DocumentStatus.posted;
    posted_by = some (codes "bob");
    hash_sha256 = some (codes "hash");
  });
  audit_log =
      (AuditEvent.draft_created, codes "ana")
      ∷ ((AuditEvent.decided ApprovalDecision.approve, codes "bob")
          ∷ ((AuditEvent.document_posted, codes "bob") ∷ []));
  posted_events = codes "D1" ∷ [];
}

may_approve : check_decision created.store bob ≡ ok new_row
unfolding check_decision draft_row assert_can_access_legal_entity has_role assert_can_decide
    assert_pending_draft trim to_upper is_space
may_approve = refl

approval_written :
    apply_decision created.store new_row ApprovalDecision.approve (codes "bob") ≡ ok approved_store
unfolding apply_decision draft_row
approval_written = refl

document_posted : post_document naturals print seal period_of approved_store bob ≡ ok posted_store
unfolding post_document draft_row assert_can_access_legal_entity has_role
    assert_document_approved_for_posting assert_period_is_open trim to_upper is_space validate
    add_lines line_sides sides cents cent_amount to_minor_units minor_of_text minor_of_parts
    matches_amount starts_negative strip_sign ◌+ℤ◌
document_posted = refl

post_document-Posted_example : Posted naturals print seal period_of approved_store bob posted_store
post_document-Posted_example =
    post_document-Posted naturals print seal period_of approved_store bob document_posted

abbrev underway : List Underway
underway = record { read = new_row; user = bob; decision = ApprovalDecision.approve } ∷ []

three_steps :
    Reach naturals print seal period_of created
      (record { store = posted_store; underway = underway })
three_steps =
    Reach.next
      (Reach.next
        (Reach.next Reach.here (Step.check bob ApprovalDecision.approve new_row may_approve))
        (Step.write 0 (record { read = new_row; user = bob; decision = ApprovalDecision.approve })
          approved_store refl approval_written))
      (Step.post bob posted_store document_posted)

Reach-Authorised_example :
    (decisions posted_store.audit_log ≤ 1)
    × (length posted_store.posted_events ≤ 1)
    × (posted_row.status ≡ DocumentStatus.posted → Authorised posted_row)
Reach-Authorised_example =
    Reach-Authorised naturals print seal period_of ApprovalOrigin.manual policy none
      resolved_pending (codes "D1") (codes "E1") (codes "P1") ana (some entry) three_steps refl
