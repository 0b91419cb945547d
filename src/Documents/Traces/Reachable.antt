-- ===== src/Documents/Traces/Reachable.antt =====
-- What holds of every document that these transactions can reach.
use atlas_erpbackend.Prelude.{
  ◌≡◌, ◌≤◌, ◌+◌, ℕ, zero, suc, refl, sym, ap, ◌∙◌, subst, ◌&&◌, Option, some, List, [], ◌∷◌, ok,
  err, length, length-append, arith, All, ◌⊎◌, inl, inr, throw_if-ok, get_elem?, ok_injective,
}
use atlas_erpbackend.Text.{Text}
use atlas_erpbackend.Money.Values.{Floats}
use atlas_erpbackend.Documents.Rows.{
  draft, posted, ApprovalStatus, not_required, pending, ApprovalDecision, approve, reject, AuthUser,
  AccountingPeriod, Journal, Document, decided, document_posted, self_approval_forbidden,
  DocumentError, is_truthy, is_text,
}
use atlas_erpbackend.Documents.Policy.{
  ResolvedApproval, ApprovalOrigin, ApprovalPolicyDecision, resolve_approval_for_creation,
  evaluate_approval_policy, contradicts, resolved,
}
use atlas_erpbackend.Documents.Approval.{decide_row, assert_can_decide, assert_pending_draft}
use atlas_erpbackend.Documents.Posting.{draft_row}
use atlas_erpbackend.Documents.Passed.{check_decision-ok, apply_decision-ok, post_document-Passed}
use atlas_erpbackend.Documents.Traces.{System, Step, Reach, created_system, decisions}
use atlas_erpbackend.Documents.Traces.Stages.{
  decisions-append, IsOther, Authorised, IsStage, waiting, exempted, accepted, refused, published,
  decide_row-IsStage, post-IsStage,
}

pub record IsSound (creator : Text) (s : System) : Type 0 where
  pub document : Document
  pub found : s.store.document ≡ some document
  pub created : document.created_by ≡ some creator
  pub stage : IsStage document (decisions s.store.audit_log) (length s.store.posted_events)
  pub others : All (λ u. IsOther (some creator) u.user.sub) s.underway

some_injective {ℓ} : {A : Type ℓ} {a b : A} → some a ≡ some b → a ≡ b
some_injective h = cc

All-get {ℓ κ} :
    {A : Type ℓ} (P : A → Type κ) (xs : List A) (i : ℕ) {x : A}
    → All P xs
    → get_elem? xs i ≡ some x
    → P x
All-get P [] i h k = cc
All-get P (x ∷ xs) zero (h, hs) k = subst P (some_injective k) h
All-get P (x ∷ xs) (suc i) (h, hs) k = All-get P xs i hs k

assert_can_decide-IsOther :
    (d : Document) (actor_id : Text)
    → assert_can_decide d actor_id ≡ ok tt
    → IsOther d.created_by actor_id
unfolding assert_can_decide
assert_can_decide-IsOther d actor_id h =
    (throw_if-ok (is_truthy d.created_by && is_text d.created_by actor_id) self_approval_forbidden
      (assert_pending_draft d) h).0

decide_row_creator :
    (decision : ApprovalDecision) (actor_id : Text) (d : Document)
    → (decide_row decision actor_id d).created_by ≡ d.created_by
decide_row_creator approve actor_id d = refl
decide_row_creator reject actor_id d = refl

recount : {d : Document} {k k' m m' : ℕ} → IsStage d k m → k ≡ k' → m ≡ m' → IsStage d k' m'
recount {d} {k} {k'} {m} {m'} stage e f =
    subst (λ n. IsStage d k' n) f (subst (λ n. IsStage d n m) e stage)

-- A new draft waits for a decision, or a policy of the server exempts it.
resolve_approval-cases :
    (origin : ApprovalOrigin) (policy : Option Text) (requested : Option ApprovalStatus)
    {approval : ResolvedApproval}
    → resolve_approval_for_creation origin policy requested ≡ ok approval
    → (approval.approval_status ≡ pending) ⊎ (approval.approval_status ≡ not_required)
unfolding resolve_approval_for_creation
resolve_approval-cases origin policy requested {approval} h =
    of_decision (evaluate_approval_policy origin policy) h
  where
    resolved-status :
        (status : ApprovalStatus) (policy_ref : Text)
        → resolved status policy_ref requested ≡ ok approval
        → approval.approval_status ≡ status
    resolved-status status policy_ref k =
        let (agrees, k1) = throw_if-ok (contradicts requested status) _ _ k in
        ap (λ a. a.approval_status) (sym (ok_injective k1))

    of_decision :
        (decision : ApprovalPolicyDecision)
        → (elim decision [
          | ApprovalPolicyDecision.unavailable ↦ err DocumentError.approval_policy_unavailable
          | ApprovalPolicyDecision.required policy_ref ↦ resolved pending policy_ref requested
          | ApprovalPolicyDecision.exempt policy_ref ↦ resolved not_required policy_ref requested
        ])
          ≡ ok approval
        → (approval.approval_status ≡ pending) ⊎ (approval.approval_status ≡ not_required)
    of_decision ApprovalPolicyDecision.unavailable k = cc
    of_decision (ApprovalPolicyDecision.required policy_ref) k =
        inl (resolved-status pending policy_ref k)
    of_decision (ApprovalPolicyDecision.exempt policy_ref) k =
        inr (resolved-status not_required policy_ref k)

module _ (F : Floats) (number_text : F.Number → Text) (seal : Document → Journal → Text)
    (period_of : Text → Option AccountingPeriod) (creator : Text) where
  Step-IsSound :
      {s t : System} → IsSound creator s → Step F number_text seal period_of s t → IsSound creator t
  Step-IsSound {s} h (Step.check user decision read passed) =
      let c = check_decision-ok s.store user passed in
      let same = some_injective (sym c.found ∙ h.found) in
      let other = assert_can_decide-IsOther read user.sub c.free in
      record {
        document = h.document;
        found = h.found;
        created = h.created;
        stage = h.stage;
        others = (
          subst (λ x. IsOther x user.sub) (ap (λ d. d.created_by) same ∙ h.created) other,
          h.others,
        );
      }
  Step-IsSound {s} h (Step.write i u after there passed) =
      let a = apply_decision-ok s.store u.read u.decision u.user.sub passed in
      let same = some_injective (sym h.found ∙ a.found) in
      let created = subst (λ d. d.created_by ≡ some creator) same h.created in
      let other = All-get (λ v. IsOther (some creator) v.user.sub) s.underway i h.others there in
      let stage =
        decide_row-IsStage a.current a.awaited u.decision u.user.sub
          (subst (λ c. IsOther c u.user.sub) (sym created) other)
          (subst (λ d. IsStage d (decisions s.store.audit_log) (length s.store.posted_events)) same
            h.stage) in
      record {
        document = decide_row u.decision u.user.sub a.current;
        found = a.document;
        created = decide_row_creator u.decision u.user.sub a.current ∙ created;
        stage =
            recount stage
              (sym (
                ap decisions a.audit_log
                ∙ decisions-append s.store.audit_log ((decided u.decision, u.user.sub) ∷ [])))
              (ap length (sym a.posted_events));
        others = h.others;
      }
  Step-IsSound {s} h (Step.post user after passed) =
      let p = post_document-Passed F number_text seal period_of s.store user passed in
      let same = some_injective (sym h.found ∙ p.found) in
      let stage = post-IsStage p.document p.was_draft p.authorised (
        subst (λ d. IsStage d (decisions s.store.audit_log) (length s.store.posted_events)) same
          h.stage) in
      record {
        document = record p.document { status = posted };
        found = p.written;
        created = subst (λ d. d.created_by ≡ some creator) same h.created;
        stage =
            recount stage
              (plus_0 (decisions s.store.audit_log)
                ∙ sym (
                    ap decisions p.audit_log
                    ∙ decisions-append s.store.audit_log ((document_posted, user.sub) ∷ [])))
              (sym (
                ap length p.posted_events
                ∙ length-append s.store.posted_events (p.document.id ∷ [])));
        others = h.others;
      }
    where
      plus_0 : (n : ℕ) → n ≡ n + 0
      plus_0 n = omega arith

module _ (F : Floats) (number_text : F.Number → Text) (seal : Document → Journal → Text)
    (period_of : Text → Option AccountingPeriod) (origin : ApprovalOrigin) (policy : Option Text)
    (requested : Option ApprovalStatus) {approval : ResolvedApproval}
    (resolved_now : resolve_approval_for_creation origin policy requested ≡ ok approval)
    (id legal_entity_id accounting_period_id : Text) (creator : AuthUser)
    (journal : Option Journal) where
  created-IsSound :
      IsSound creator.sub
        (created_system id legal_entity_id accounting_period_id approval creator journal)
  unfolding draft_row
  created-IsSound = record {
    document = draft_row id legal_entity_id accounting_period_id approval creator;
    found = refl;
    created = refl;
    stage = elim (resolve_approval-cases origin policy requested resolved_now) [
      | inl e ↦ waiting refl e refl refl
      | inr e ↦ exempted refl e refl refl
    ];
    others = tt;
  }

  -- However approvals, rejections and postings of a new document interleave, at most one decision is
  -- written and at most one event of its posting; and a document that is posted was exempted by a policy
  -- on record or approved by a user on record other than its creator.
  pub Reach-Authorised :
      {s : System} {document : Document}
      → Reach F number_text seal period_of
          (created_system id legal_entity_id accounting_period_id approval creator journal)
          s
      → s.store.document ≡ some document
      → (decisions s.store.audit_log ≤ 1)
        × (length s.store.posted_events ≤ 1)
        × (document.status ≡ posted → Authorised document)
  Reach-Authorised {s} {document} r found =
      let sound = Reach-IsSound r in
      let same = some_injective (sym sound.found ∙ found) in
      of_stage (
        subst (λ d. IsStage d (decisions s.store.audit_log) (length s.store.posted_events)) same
          sound.stage)
    where
      Reach-IsSound :
          {t : System}
          → Reach F number_text seal period_of
              (created_system id legal_entity_id accounting_period_id approval creator journal)
              t
          → IsSound creator.sub t
      Reach-IsSound Reach.here = created-IsSound
      Reach-IsSound (Reach.next r step) =
          Step-IsSound F number_text seal period_of creator.sub (Reach-IsSound r) step

      draft_posted : draft ≡ posted → ⊥
      draft_posted h = cc

      of_stage :
          {k m : ℕ}
          → IsStage document k m
          → (k ≤ 1) × (m ≤ 1) × (document.status ≡ posted → Authorised document)
      of_stage (waiting e a k0 m0) =
          (omega (arith, k0), omega (arith, m0), λ p. absurd (draft_posted (sym e ∙ p)))
      of_stage (exempted e a k0 m0) =
          (omega (arith, k0), omega (arith, m0), λ p. absurd (draft_posted (sym e ∙ p)))
      of_stage (accepted b e a f o k1 m0) =
          (omega (arith, k1), omega (arith, m0), λ p. absurd (draft_posted (sym e ∙ p)))
      of_stage (refused e a k1 m0) =
          (omega (arith, k1), omega (arith, m0), λ p. absurd (draft_posted (sym e ∙ p)))
      of_stage (published e auth k1 m1) = (k1, omega (arith, m1), λ p. auth)
