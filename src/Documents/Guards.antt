-- ===== src/Documents/Guards.antt =====
-- What a posting that went through had before it.
use mathlib.Core.List.{Mem, mem-cons_self, mem-cons_of_mem}
use atlas_erpbackend.Prelude.{
  ℕ, ◌≡◌, ◌⊎◌, refl, sym, subst, Bool, true, false, not, ◌||◌, Option, none, some, List, [], ◌∷◌,
  ◌++◌, map, any, Bool-cases, inl, inr, ok, err, throw_if, throw_if-ok, ok_injective, arith,
}
use atlas_erpbackend.Text.{Text, codes, text_eq, text_eq_sound, trim, to_upper, is_space}
use atlas_erpbackend.Money.Values.{Floats}
use atlas_erpbackend.Posting.Balance.{IsDoubleEntry}
use atlas_erpbackend.Documents.Rows.{
  DocumentStatus, draft, posted, ApprovalStatus, not_required, approved, pending, rejected,
  other_approval, AuthUser, AccountingPeriod, Journal, Document, Store, document_posted, is_draft,
  is_truthy, is_text, legal_entity_scope_required, legal_entity_forbidden, period_closed,
  approval_policy_missing, approval_required, DocumentError,
}
use atlas_erpbackend.Documents.Access.{
  has_role, role_name, is_empty, assert_can_access_legal_entity, assert_period_is_open,
}
use atlas_erpbackend.Documents.Approval.{assert_document_approved_for_posting}
use atlas_erpbackend.Documents.Posting.{post_document, amounts_of}
use atlas_erpbackend.Documents.Passed.{post_document-Passed}

-- One of the roles of the user reads ADMIN, without the white space round it and in capitals.
abbrev pub IsAdmin : AuthUser → Type 0
IsAdmin user =
    (role : Text) × Mem (some role) (user.role_code ∷ (user.role ∷ map (λ r. some r) user.roles))
    × (to_upper (trim role) ≡ codes "ADMIN")

-- A text that is there and is not empty.
abbrev pub IsFilled : Option Text → Type 0
IsFilled o = (c : ℕ) × (s : Text) × (o ≡ some (c ∷ s))

-- Approved by somebody, or exempted by some policy.
abbrev pub IsCleared : Document → Type 0
IsCleared document =
    ((document.approval_status ≡ not_required) × IsFilled document.approval_policy_ref)
    ⊎ ((document.approval_status ≡ approved) × IsFilled document.approved_by)

any-Mem {ℓ} :
    {A : Type ℓ} (p : A → Bool) (xs : List A) → any p xs ≡ true → (x : A) × Mem x xs × (p x ≡ true)
any-Mem p [] h = cc
any-Mem p (x ∷ xs) h = elim (Bool-cases (p x)) [
  | inl e ↦ (x, mem-cons_self, e)
  | inr e ↦
      let (y, there, passes) = any-Mem p xs (ground arith) in (y, mem-cons_of_mem x there, passes)
]

role_name-some :
    (o : Option Text) (t : Text)
    → is_text (role_name o) t ≡ true
    → (role : Text) × (o ≡ some role) × (to_upper (trim role) ≡ t)
role_name-some none t h = cc
role_name-some (some role) t h = (role, refl, text_eq_sound (to_upper (trim role)) t h)

has_role-IsAdmin : (user : AuthUser) → has_role user (codes "admin") ≡ true → IsAdmin user
unfolding has_role trim to_upper is_space
has_role-IsAdmin user h =
    let roles = user.role_code ∷ (user.role ∷ map (λ r. some r) user.roles) in
    let (o, there, reads) = any-Mem (λ role. is_text (role_name role) (codes "ADMIN")) roles h in
    let (role, same, named) = role_name-some o (codes "ADMIN") reads in
    (role, subst (λ x. Mem x roles) same there, named)

access-scope :
    (user : AuthUser) (entity : Text)
    → assert_can_access_legal_entity user entity ≡ ok tt
    → IsAdmin user ⊎ Mem entity user.legal_entity_ids
unfolding assert_can_access_legal_entity
access-scope user entity h = elim (Bool-cases (has_role user (codes "admin"))) [
  | inl admin ↦ inl (has_role-IsAdmin user admin)
  | inr other ↦
      let (some_entity, k) =
        throw_if-ok (is_empty user.legal_entity_ids) legal_entity_scope_required _
          (rw other at h) in
      let listed = allowed (any (text_eq entity) user.legal_entity_ids) k in
      let (id, there, same) = any-Mem (text_eq entity) user.legal_entity_ids listed in
      inr (subst (λ t. Mem t user.legal_entity_ids) (sym (text_eq_sound entity id same)) there)
]
  where
    allowed : (b : Bool) → throw_if (not b) legal_entity_forbidden ≡ ok tt → b ≡ true
    allowed true k = refl
    allowed false k = cc

approved-IsCleared :
    (document : Document)
    → assert_document_approved_for_posting document ≡ ok tt
    → IsCleared document
unfolding assert_document_approved_for_posting
approved-IsCleared document h = by_status document.approval_status refl h
  where
    filled :
        (o : Option Text) (e : DocumentError) → throw_if (not (is_truthy o)) e ≡ ok tt → IsFilled o
    filled none e k = cc
    filled (some []) e k = cc
    filled (some (c ∷ s)) e k = (c, s, refl)

    by_status :
        (a : ApprovalStatus)
        → document.approval_status ≡ a
        → (elim a [
          | not_required ↦
              throw_if (not (is_truthy document.approval_policy_ref)) approval_policy_missing
          | approved ↦ throw_if (not (is_truthy document.approved_by)) approval_required
          | pending ↦ err approval_required
          | rejected ↦ err approval_required
          | other_approval s ↦ err approval_required
        ])
          ≡ ok tt
        → IsCleared document
    by_status not_required e k = inl (e, filled document.approval_policy_ref _ k)
    by_status approved e k = inr (e, filled document.approved_by _ k)
    by_status pending e k = cc
    by_status rejected e k = cc
    by_status (other_approval s) e k = cc

-- A period that was found and takes postings.
pub record IsOpen (found : Option AccountingPeriod) (period : AccountingPeriod) : Type 0 where
  pub there : found ≡ some period
  pub is_open : period.is_open ≡ true
  pub close_status : period.close_status ≡ codes "OPEN"

period-IsOpen :
    (found : Option AccountingPeriod) {period : AccountingPeriod}
    → assert_period_is_open found ≡ ok period
    → IsOpen found period
unfolding assert_period_is_open
period-IsOpen none h = cc
period-IsOpen (some p) h =
    let (open_now, k) =
      throw_if-ok (not p.is_open || not (text_eq p.close_status (codes "OPEN"))) period_closed _
        h in
    subst (IsOpen (some p)) (ok_injective k) (record {
      there = refl;
      is_open = ground arith;
      close_status = text_eq_sound p.close_status (codes "OPEN") (ground arith);
    })

module _ (F : Floats) (number_text : F.Number → Text) (seal : Document → Journal → Text)
    (period_of : Text → Option AccountingPeriod) where
  -- A posting that went through: what held before, and what it wrote.
  pub record Posted (store : Store) (user : AuthUser) (after : Store) : Type 0 where
    pub document : Document
    pub journal : Journal
    pub period : AccountingPeriod
    pub found : store.document ≡ some document
    pub access : IsAdmin user ⊎ Mem document.legal_entity_id user.legal_entity_ids
    pub was_draft : document.status ≡ draft
    pub cleared : IsCleared document
    pub open_period : IsOpen (period_of document.accounting_period_id) period
    pub has_journal : store.journal ≡ some journal
    pub double_entry :
        IsDoubleEntry F number_text (map (amounts_of F number_text seal period_of) journal.lines)
    pub written : after.document ≡ some (record document { status = posted })
    pub journal_written :
        after.journal
        ≡ some (record journal {
          posting_status = posted;
          posted_by = some user.sub;
          hash_sha256 = some (seal document journal);
        })
    pub audit_log : after.audit_log ≡ store.audit_log ++ ((document_posted, user.sub) ∷ [])
    pub posted_events : after.posted_events ≡ store.posted_events ++ (document.id ∷ [])

  -- A document is posted only if one of the roles of the user is ADMIN, without the white space round
  -- it and in capitals, or the legal entity of the document is in the list of the user's; the document
  -- is a draft, which is exempted from approval and names a policy, or is approved and names who
  -- approved it; the period looked up for it is there, has its flag of being open set and its close
  -- status OPEN; and its journal is there and is a double entry. Then the status of the document and
  -- of the journal, with the user and the hash, one line of the audit log and one event are written.
  pub post_document-Posted :
      (store : Store) (user : AuthUser) {after : Store}
      → post_document F number_text seal period_of store user ≡ ok after
      → Posted store user after
  post_document-Posted store user h =
      let p = post_document-Passed F number_text seal period_of store user h in
      record {
        document = p.document;
        journal = p.journal;
        period = p.period;
        found = p.found;
        access = access-scope user p.document.legal_entity_id p.access;
        was_draft = draft_status p.document.status p.was_draft;
        cleared = approved-IsCleared p.document p.authorised;
        open_period = period-IsOpen (period_of p.document.accounting_period_id) p.open_period;
        has_journal = p.has_journal;
        double_entry = p.double_entry;
        written = p.written;
        journal_written = p.journal_written;
        audit_log = p.audit_log;
        posted_events = p.posted_events;
      }
    where
      draft_status : (s : DocumentStatus) → is_draft s ≡ true → s ≡ draft
      draft_status s k = ground arith
