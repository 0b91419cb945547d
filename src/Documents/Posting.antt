-- ===== src/Documents/Posting.antt =====
-- `postDocumentInSpan` of services/accounting-posting.service.ts, and the row that
-- services/document-draft-recorder.service.ts creates. The lock on the row makes the posting one step.
-- `seal` is `sealJournal`, a SHA-256 of the journal: a parameter.
use atlas_erpbackend.Prelude.{
  not, Option, none, some, [], ◌∷◌, ◌++◌, map, Result, ok, err, ◌>>=◌, ◌>>◌, throw_if,
}
use atlas_erpbackend.Text.{Text}
use atlas_erpbackend.Money.Values.{Floats}
use atlas_erpbackend.Posting.{text, JournalLineAmount, PostingError, validate}
use atlas_erpbackend.Documents.Rows.{
  draft, posted, AuthUser, AccountingPeriod, JournalLine, Journal, Document, Store, document_posted,
  DocumentError, journal_entry_not_found, document_not_draft, invalid_journal, is_draft,
}
use atlas_erpbackend.Documents.Access.{assert_can_access_legal_entity, assert_period_is_open}
use atlas_erpbackend.Documents.Policy.{ResolvedApproval}
use atlas_erpbackend.Documents.Approval.{assert_document_approved_for_posting, or_not_found}

abbrev pub assert_journal_exists : Option Journal → Result DocumentError Journal
assert_journal_exists none = err journal_entry_not_found
assert_journal_exists (some journal) = ok journal

abbrev pub lift_journal {ℓ} : {A : Type ℓ} → Result PostingError A → Result DocumentError A
lift_journal (ok a) = ok a
lift_journal (err e) = err (invalid_journal e)

-- The draft that `record` writes.
unfoldable pub draft_row : Text → Text → Text → ResolvedApproval → AuthUser → Document
draft_row id legal_entity_id accounting_period_id approval user = record {
  id = id;
  legal_entity_id = legal_entity_id;
  accounting_period_id = accounting_period_id;
  status = draft;
  approval_status = approval.approval_status;
  approval_policy_ref = some approval.approval_policy_ref;
  created_by = some user.sub;
  approved_by = none;
  rejected_by = none;
}

module _ (F : Floats) (number_text : F.Number → Text) (seal : Document → Journal → Text)
    (period_of : Text → Option AccountingPeriod) where
  open F use {Number}

  abbrev pub amounts_of : JournalLine → JournalLineAmount Number
  amounts_of line = record { debit = text line.debit; credit = text line.credit }

  unfoldable pub post_document : Store → AuthUser → Result DocumentError Store
  post_document store user = do
    document ← or_not_found store.document
    assert_can_access_legal_entity user document.legal_entity_id
    throw_if (not (is_draft document.status)) document_not_draft
    assert_document_approved_for_posting document
    _ ← assert_period_is_open (period_of document.accounting_period_id)
    journal ← assert_journal_exists store.journal
    lift_journal (validate F number_text (map amounts_of journal.lines))
    let hash = seal document journal
    ok (record {
      document = some (record document { status = posted });
      journal = some (record journal {
        posting_status = posted;
        posted_by = some user.sub;
        hash_sha256 = some hash;
      });
      audit_log = store.audit_log ++ ((document_posted, user.sub) ∷ []);
      posted_events = store.posted_events ++ (document.id ∷ []);
    })
