-- ===== src/Documents/Passed.antt =====
-- The guards that a decision and a posting go past.
use atlas_erpbackend.Prelude.{
  ◌≡◌, refl, sym, ap, subst, Bool, true, false, not, Option, none, some, [], ◌∷◌, ◌++◌, map,
  if◌then◌else◌, Result, ok, err, >>=-ok, throw_if-ok, ok_injective,
}
use atlas_erpbackend.Text.{Text}
use atlas_erpbackend.Money.Values.{Floats}
use atlas_erpbackend.Posting.{PostingError, validate}
use atlas_erpbackend.Posting.Balance.{IsDoubleEntry, validate_iff}
use atlas_erpbackend.Documents.Rows.{
  posted, ApprovalDecision, AuthUser, AccountingPeriod, Journal, Document, Store, decided,
  document_posted, DocumentError, not_pending_approval, is_draft, document_not_draft,
}
use atlas_erpbackend.Documents.Access.{assert_can_access_legal_entity, assert_period_is_open}
use atlas_erpbackend.Documents.Approval.{
  assert_document_approved_for_posting, assert_can_decide, check_decision, apply_decision,
  decide_row, awaits_decision, or_not_found,
}
use atlas_erpbackend.Documents.Posting.{
  post_document, amounts_of, assert_journal_exists, lift_journal,
}

pub record Checked (store : Store) (user : AuthUser) (document : Document) : Type 0 where
  pub found : store.document ≡ some document
  pub access : assert_can_access_legal_entity user document.legal_entity_id ≡ ok tt
  pub free : assert_can_decide document user.sub ≡ ok tt

or_not_found-ok :
    (o : Option Document) {document : Document} → or_not_found o ≡ ok document → o ≡ some document
or_not_found-ok none h = cc
or_not_found-ok (some d) h = ap some (ok_injective h)

pub check_decision-ok :
    (store : Store) (user : AuthUser) {document : Document}
    → check_decision store user ≡ ok document
    → Checked store user document
unfolding check_decision
check_decision-ok store user h =
    let (d, found, h1) = >>=-ok (or_not_found store.document) _ h in
    let (unit, access, h2) = >>=-ok (assert_can_access_legal_entity user d.legal_entity_id) _ h1 in
    let (unit', free, h3) = >>=-ok (assert_can_decide d user.sub) _ h2 in
    subst (Checked store user) (ok_injective h3)
      (record { found = or_not_found-ok store.document found; access = access; free = free })

pub record Applied (store : Store) (decision : ApprovalDecision) (actor_id : Text) (after : Store)
    : Type 0 where
  pub current : Document
  pub found : store.document ≡ some current
  pub awaited : awaits_decision current ≡ true
  pub document : after.document ≡ some (decide_row decision actor_id current)
  pub audit_log : after.audit_log ≡ store.audit_log ++ ((decided decision, actor_id) ∷ [])
  pub posted_events : after.posted_events ≡ store.posted_events

if_ok :
    (b : Bool) {s t : Store} (e : DocumentError)
    → (if b then ok s else err e) ≡ ok t
    → (b ≡ true) × (s ≡ t)
if_ok true e h = (refl, ok_injective h)
if_ok false e h = cc

pub apply_decision-ok :
    (store : Store) (read : Document) (decision : ApprovalDecision) (actor_id : Text)
    {after : Store}
    → apply_decision store read decision actor_id ≡ ok after
    → Applied store decision actor_id after
unfolding apply_decision
apply_decision-ok store read decision actor_id {after} h = at_row store.document refl h
  where
    at_row :
        (o : Option Document)
        → store.document ≡ o
        → (elim o [
          | none ↦ err (not_pending_approval read.status read.approval_status)
          | some current ↦
              if awaits_decision current
              then ok (record store {
                document = some (decide_row decision actor_id current);
                audit_log = store.audit_log ++ ((decided decision, actor_id) ∷ []);
              })
              else err (not_pending_approval current.status current.approval_status)
        ])
          ≡ ok after
        → Applied store decision actor_id after
    at_row none found k = cc
    at_row (some current) found k =
        let (awaited, same) =
          if_ok (awaits_decision current)
            (not_pending_approval current.status current.approval_status) k in
        record {
          current = current;
          found = found;
          awaited = awaited;
          document = ap (λ s. s.document) (sym same);
          audit_log = ap (λ s. s.audit_log) (sym same);
          posted_events = ap (λ s. s.posted_events) (sym same);
        }

assert_journal_exists-ok :
    (o : Option Journal) {journal : Journal}
    → assert_journal_exists o ≡ ok journal
    → o ≡ some journal
assert_journal_exists-ok none h = cc
assert_journal_exists-ok (some j) h = ap some (ok_injective h)

lift_journal-ok :
    (r : Result PostingError (Unit {0})) {u : Unit {0}} → lift_journal r ≡ ok u → r ≡ ok tt
lift_journal-ok (ok u) h = refl
lift_journal-ok (err e) h = cc

module _ (F : Floats) (number_text : F.Number → Text) (seal : Document → Journal → Text)
    (period_of : Text → Option AccountingPeriod) where
  -- A posting that went through: the guards of the code that held, and what it wrote.
  pub record Passed (store : Store) (user : AuthUser) (after : Store) : Type 0 where
    pub document : Document
    pub journal : Journal
    pub period : AccountingPeriod
    pub found : store.document ≡ some document
    pub access : assert_can_access_legal_entity user document.legal_entity_id ≡ ok tt
    pub was_draft : is_draft document.status ≡ true
    pub authorised : assert_document_approved_for_posting document ≡ ok tt
    pub open_period : assert_period_is_open (period_of document.accounting_period_id) ≡ ok period
    pub has_journal : store.journal ≡ some journal
    pub double_entry :
        IsDoubleEntry F number_text (map (amounts_of F number_text seal period_of) journal.lines)
    pub written : after.document ≡ some (record document { status = posted })
    pub journal_written :
        after.journal
        ≡ some (record journal {
          posting_status = posted;
          posted_by = some user.sub;
          hash_sha256 = some (seal document journal);
        })
    pub audit_log : after.audit_log ≡ store.audit_log ++ ((document_posted, user.sub) ∷ [])
    pub posted_events : after.posted_events ≡ store.posted_events ++ (document.id ∷ [])

  pub post_document-Passed :
      (store : Store) (user : AuthUser) {after : Store}
      → post_document F number_text seal period_of store user ≡ ok after
      → Passed store user after
  unfolding post_document
  post_document-Passed store user {after} h =
      let (d, found, h1) = >>=-ok (or_not_found store.document) _ h in
      let (unit, access, h2) =
        >>=-ok (assert_can_access_legal_entity user d.legal_entity_id) _ h1 in
      let (was_draft, h3) = throw_if-ok (not (is_draft d.status)) document_not_draft _ h2 in
      let (unit', authorised, h4) = >>=-ok (assert_document_approved_for_posting d) _ h3 in
      let (period, opened, h5) =
        >>=-ok (assert_period_is_open (period_of d.accounting_period_id)) _ h4 in
      let (j, has_journal, h6) = >>=-ok (assert_journal_exists store.journal) _ h5 in
      let (unit'', valid, h7) =
        >>=-ok
          (lift_journal
            (validate F number_text (map (amounts_of F number_text seal period_of) j.lines)))
          _ h6 in
      let same = sym (ok_injective h7) in
      record {
        document = d;
        journal = j;
        period = period;
        found = or_not_found-ok store.document found;
        access = access;
        was_draft = kept (is_draft d.status) was_draft;
        authorised = authorised;
        open_period = opened;
        has_journal = assert_journal_exists-ok store.journal has_journal;
        double_entry =
            (validate_iff F number_text (map (amounts_of F number_text seal period_of) j.lines)).0 (
              lift_journal-ok
                (validate F number_text (map (amounts_of F number_text seal period_of) j.lines))
                valid);
        written = ap (λ s. s.document) same;
        journal_written = ap (λ s. s.journal) same;
        audit_log = ap (λ s. s.audit_log) same;
        posted_events = ap (λ s. s.posted_events) same;
      }
    where
      kept : (b : Bool) → not b ≡ false → b ≡ true
      kept true e = refl
      kept false e = cc
