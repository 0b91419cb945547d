-- ===== src/Documents/Policy.antt =====
-- modules/accounting/documents/domain/approval-policy.ts. The texts of the reasons are left out.
use atlas_erpbackend.Prelude.{
  Bool, true, false, not, Option, none, some, [], ◌∷◌, if◌then◌else◌, Result, ok, err, ◌>>◌,
  throw_if,
}
use atlas_erpbackend.Text.{Text, codes, text_eq}
use atlas_erpbackend.Documents.Rows.{
  ApprovalStatus, not_required, pending, approved, rejected, other_approval, DocumentError,
  approval_policy_unavailable, approval_status_contradicts_policy, approval_not_client_settable,
}

pub data ApprovalOrigin : Type 0 where
  manual server_generated : ApprovalOrigin

pub data ApprovalPolicyDecision : Type 0 where
  required : Text → ApprovalPolicyDecision
  exempt : Text → ApprovalPolicyDecision
  unavailable : ApprovalPolicyDecision

abbrev pub all_manual_policy_ref : Text
all_manual_policy_ref = codes "ALL_MANUAL_REQUIRE_APPROVAL@1"

abbrev pub server_generated_policy_ref : Text
server_generated_policy_ref = codes "SERVER_GENERATED_DOCUMENT@1"

-- `APPROVAL_POLICY_IDS.includes(value)`
unfoldable pub is_known_approval_policy : Text → Bool
is_known_approval_policy value = text_eq value (codes "ALL_MANUAL_REQUIRE_APPROVAL")

unfoldable pub evaluate_approval_policy : ApprovalOrigin → Option Text → ApprovalPolicyDecision
evaluate_approval_policy server_generated configured_policy = exempt server_generated_policy_ref
evaluate_approval_policy manual none = unavailable
evaluate_approval_policy manual (some []) = unavailable
evaluate_approval_policy manual (some (c ∷ policy)) =
    if is_known_approval_policy (c ∷ policy) then required all_manual_policy_ref else unavailable

pub record ResolvedApproval : Type 0 where
  pub approval_status : ApprovalStatus
  pub approval_policy_ref : Text

abbrev pub same_approval : ApprovalStatus → ApprovalStatus → Bool
same_approval not_required not_required = true
same_approval pending pending = true
same_approval approved approved = true
same_approval rejected rejected = true
same_approval (other_approval s) (other_approval t) = text_eq s t
same_approval _ _ = false

-- `requested !== undefined && requested !== approvalStatus`
abbrev pub contradicts : Option ApprovalStatus → ApprovalStatus → Bool
contradicts none decided = false
contradicts (some requested) decided = not (same_approval requested decided)

abbrev pub resolved :
    ApprovalStatus → Text → Option ApprovalStatus → Result DocumentError ResolvedApproval
resolved status policy_ref requested = do
  throw_if (contradicts requested status) approval_status_contradicts_policy
  ok (record { approval_status = status; approval_policy_ref = policy_ref })

unfoldable pub resolve_approval_for_creation :
    ApprovalOrigin → Option Text → Option ApprovalStatus → Result DocumentError ResolvedApproval
resolve_approval_for_creation origin configured_policy requested =
    elim (evaluate_approval_policy origin configured_policy) [
      | unavailable ↦ err approval_policy_unavailable
      | required policy_ref ↦ resolved pending policy_ref requested
      | exempt policy_ref ↦ resolved not_required policy_ref requested
    ]

-- `assertClientApprovalStatus` of document-approval.ts.
unfoldable pub assert_client_approval_status :
    Option ApprovalStatus → Result DocumentError (Unit {0})
assert_client_approval_status none = ok tt
assert_client_approval_status (some not_required) = ok tt
assert_client_approval_status (some pending) = ok tt
assert_client_approval_status (some _) = err approval_not_client_settable
