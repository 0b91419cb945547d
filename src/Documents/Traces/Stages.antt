-- ===== src/Documents/Traces/Stages.antt =====
-- The stages of a document, and that no step leaves them.
use atlas_erpbackend.Prelude.{
  ◌≡◌, ◌≢◌, ◌≤◌, ◌+◌, ℕ, refl, sym, ap, ◌∙◌, subst, Bool, true, false, not, ◌&&◌, Option, some,
  List, [], ◌∷◌, ◌++◌, ok, err, throw_if, arith, ◌⊎◌, inl, inr,
}
use atlas_erpbackend.Text.{Text, text_eq, text_eq_refl}
use atlas_erpbackend.Documents.Rows.{
  draft, posted, ApprovalStatus, not_required, pending, approved, rejected, other_approval,
  ApprovalDecision, approve, reject, Document, AuditEvent, draft_created, decided, document_posted,
  is_truthy, is_text, is_draft, is_pending, DocumentError,
}
use atlas_erpbackend.Documents.Approval.{
  awaits_decision, decide_row, assert_document_approved_for_posting,
}
use atlas_erpbackend.Documents.Traces.{decisions}

pub decisions-append :
    (xs ys : List (AuditEvent × Text)) → decisions (xs ++ ys) ≡ decisions xs + decisions ys
decisions-append [] ys = omega arith
decisions-append ((decided d, a) ∷ xs) ys = omega (arith, decisions-append xs ys)
decisions-append ((draft_created, a) ∷ xs) ys = decisions-append xs ys
decisions-append ((document_posted, a) ∷ xs) ys = decisions-append xs ys

-- The actor is not the creator, as `assertCanDecide` tests it.
abbrev pub IsOther : Option Text → Text → Type 0
IsOther created_by actor_id = (is_truthy created_by && is_text created_by actor_id) ≡ false

-- The document was exempted by a policy on record, or approved by a user on record who did not
-- create it.
abbrev pub Authorised : Document → Type 0
Authorised d =
    ((d.approval_status ≡ not_required) × (is_truthy d.approval_policy_ref ≡ true))
    ⊎ ((d.approval_status ≡ approved)
        × ((approver : Text) × (d.approved_by ≡ some approver)
            × (is_truthy (some approver) ≡ true)
            × (d.created_by ≢ some approver)))

-- The stages, with the number of decisions and of events so far.
pub data IsStage (d : Document) (decided_times posted_times : ℕ) : Type 0 where
  waiting :
      d.status ≡ draft
      → d.approval_status ≡ pending
      → decided_times ≡ 0
      → posted_times ≡ 0
      → IsStage d decided_times posted_times
  exempted :
      d.status ≡ draft
      → d.approval_status ≡ not_required
      → decided_times ≡ 0
      → posted_times ≡ 0
      → IsStage d decided_times posted_times
  accepted :
      (approver : Text)
      → d.status ≡ draft
      → d.approval_status ≡ approved
      → d.approved_by ≡ some approver
      → IsOther d.created_by approver
      → decided_times ≡ 1
      → posted_times ≡ 0
      → IsStage d decided_times posted_times
  refused :
      d.status ≡ draft
      → d.approval_status ≡ rejected
      → decided_times ≡ 1
      → posted_times ≡ 0
      → IsStage d decided_times posted_times
  published :
      d.status ≡ posted
      → Authorised d
      → decided_times ≤ 1
      → posted_times ≡ 1
      → IsStage d decided_times posted_times

true-false : true ≡ false → ⊥
true-false h = cc

second_true : (a b : Bool) → (a && b) ≡ true → b ≡ true
second_true true b h = h
second_true false b h = cc

module _ (current : Document) (awaited : awaits_decision current ≡ true) where
  not_awaiting :
      (status : ApprovalStatus) → is_pending status ≡ false → current.approval_status ≡ status → ⊥
  not_awaiting status not_pending same =
      clash (second_true (is_draft current.status) (is_pending current.approval_status) awaited)
    where
      clash : is_pending current.approval_status ≡ true → ⊥
      clash h = true-false (sym h ∙ ap is_pending same ∙ not_pending)

  not_draft : current.status ≡ posted → ⊥
  not_draft same =
      clash (first_true (is_draft current.status) (is_pending current.approval_status) awaited)
    where
      first_true : (a b : Bool) → (a && b) ≡ true → a ≡ true
      first_true true b h = refl
      first_true false b h = cc

      clash : is_draft current.status ≡ true → ⊥
      clash h = true-false (sym h ∙ ap is_draft same)

  pub decide_row-IsStage :
      (decision : ApprovalDecision) (actor_id : Text) {k m : ℕ}
      → IsOther current.created_by actor_id
      → IsStage current k m
      → IsStage (decide_row decision actor_id current) (k + 1) m
  decide_row-IsStage approve actor_id other (waiting s a k0 m0) =
      accepted actor_id s refl refl other (omega (arith, k0)) m0
  decide_row-IsStage reject actor_id other (waiting s a k0 m0) =
      refused s refl (omega (arith, k0)) m0
  decide_row-IsStage decision actor_id other (exempted s a k0 m0) =
      absurd (not_awaiting not_required refl a)
  decide_row-IsStage decision actor_id other (accepted b s a e o k1 m0) =
      absurd (not_awaiting approved refl a)
  decide_row-IsStage decision actor_id other (refused s a k1 m0) =
      absurd (not_awaiting rejected refl a)
  decide_row-IsStage decision actor_id other (published s auth k1 m1) = absurd (not_draft s)

-- What `assertDocumentApprovedForPosting` lets pass.
assert_approved-cases :
    (d : Document)
    → assert_document_approved_for_posting d ≡ ok tt
    → ((d.approval_status ≡ not_required) × (is_truthy d.approval_policy_ref ≡ true))
      ⊎ ((d.approval_status ≡ approved) × (is_truthy d.approved_by ≡ true))
unfolding assert_document_approved_for_posting
assert_approved-cases d h =
    of_status d.approval_status (is_truthy d.approval_policy_ref) (is_truthy d.approved_by) h
  where
    of_status :
        (status : ApprovalStatus) (policy approver : Bool)
        → (elim status [
          | not_required ↦ throw_if (not policy) DocumentError.approval_policy_missing
          | approved ↦ throw_if (not approver) DocumentError.approval_required
          | pending ↦ err DocumentError.approval_required
          | rejected ↦ err DocumentError.approval_required
          | other_approval s ↦ err DocumentError.approval_required
        ])
          ≡ ok tt
        → ((status ≡ not_required) × (policy ≡ true)) ⊎ ((status ≡ approved) × (approver ≡ true))
    of_status not_required true approver k = inl (refl, refl)
    of_status not_required false approver k = cc
    of_status approved policy true k = inr (refl, refl)
    of_status approved policy false k = cc
    of_status pending policy approver k = cc
    of_status rejected policy approver k = cc
    of_status (other_approval s) policy approver k = cc

other_differs :
    (creator : Option Text) (approver : Text)
    → is_truthy (some approver) ≡ true
    → IsOther creator approver
    → creator ≢ some approver
other_differs creator approver there other same =
    clash (subst (λ c. (is_truthy c && is_text c approver) ≡ false) same other)
  where
    clash : (is_truthy (some approver) && text_eq approver approver) ≡ false → ⊥
    clash h = true-false (sym (rw (there, text_eq_refl approver) refl) ∙ h)

different_approval : not_required ≡ approved → ⊥
different_approval h = cc

pub post-IsStage :
    (d : Document) {k m : ℕ}
    → is_draft d.status ≡ true
    → assert_document_approved_for_posting d ≡ ok tt
    → IsStage d k m
    → IsStage (record d { status = posted }) k (m + 1)
post-IsStage d was_draft passed stage = at_stage stage (assert_approved-cases d passed)
  where
    at_stage :
        {k m : ℕ}
        → IsStage d k m
        → ((d.approval_status ≡ not_required) × (is_truthy d.approval_policy_ref ≡ true))
          ⊎ ((d.approval_status ≡ approved) × (is_truthy d.approved_by ≡ true))
        → IsStage (record d { status = posted }) k (m + 1)
    at_stage (waiting s a k0 m0) (inl (n, p)) = absurd (cc)
    at_stage (waiting s a k0 m0) (inr (n, p)) = absurd (cc)
    at_stage (exempted s a k0 m0) (inl (n, p)) =
        published refl (inl (n, p)) (omega (arith, k0)) (omega (arith, m0))
    at_stage (exempted s a k0 m0) (inr (n, p)) = absurd (different_approval (sym a ∙ n))
    at_stage (accepted b s a e o k1 m0) (inl (n, p)) = absurd (different_approval (sym n ∙ a))
    at_stage (accepted b s a e o k1 m0) (inr (n, p)) =
        let there = subst (λ x. is_truthy x ≡ true) e p in
        published refl (inr (a, (b, e, there, other_differs d.created_by b there o)))
          (omega (arith, k1)) (omega (arith, m0))
    at_stage (refused s a k1 m0) (inl (n, p)) = absurd (cc)
    at_stage (refused s a k1 m0) (inr (n, p)) = absurd (cc)
    at_stage (published s auth k1 m1) c = absurd (true-false (sym was_draft ∙ ap is_draft s))
