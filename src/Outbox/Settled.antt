-- ===== src/Outbox/Settled.antt =====
-- markPublished and markFailed, and the order of delivery.
use atlas_erpbackend.Prelude.{
  ℕ, ◌≡◌, ◌<◌, ◌≢◌, refl, sym, ap, ◌∙◌, Bool, true, false, Option, some, map, arith, if◌then◌else◌,
  get_elem?, Bool-cases, inl, inr,
}
use atlas_erpbackend.Text.{Text}
use atlas_erpbackend.Outbox.Rows.{
  Row, Table, OutboxStatus, is_pending, is_unsettled, same_aggregate, PublishResult,
}
use atlas_erpbackend.Outbox.Relay.{
  OutboxRelayConfig, mark_published, mark_failed, publishable, publish_row, failable, fail_row,
}
use atlas_erpbackend.Outbox.Tables.{get_elem?-map}
use atlas_erpbackend.Outbox.Delivery.{failed_row_open}
use atlas_erpbackend.Outbox.Steps.{InOrder}

-- A change of rows that keeps the identity of each row and its attempts, and starts none.
record Keeps (e e' : Row) : Type 0 where
  same_id : e'.id ≡ e.id
  same_type : e'.aggregate_type ≡ e.aggregate_type
  same_aggregate_id : e'.aggregate_id ≡ e.aggregate_id
  same_version : e'.aggregate_version ≡ e.aggregate_version
  same_attempts : e'.attempts ≡ e.attempts
  still_settled : is_unsettled e.status ≡ false → is_unsettled e'.status ≡ false

publish_row-Keeps :
    (now : ℕ) (h : Option ℕ) (id : ℕ) (e : Row)
    → Keeps e (if publishable id e then publish_row now h e else e)
publish_row-Keeps now h id e = elim (Bool-cases (publishable id e)) [
  | inl hit ↦ rw hit (record {
    same_id = refl;
    same_type = refl;
    same_aggregate_id = refl;
    same_version = refl;
    same_attempts = refl;
    still_settled = λ s. refl;
  })
  | inr miss ↦ rw miss (record {
    same_id = refl;
    same_type = refl;
    same_aggregate_id = refl;
    same_version = refl;
    same_attempts = refl;
    still_settled = λ s. s;
  })
]

pending_unsettled : (s : OutboxStatus) → is_pending s ≡ true → is_unsettled s ≢ false
pending_unsettled OutboxStatus.pending h k = cc
pending_unsettled _ h k = cc

fail_row-Keeps :
    (config : OutboxRelayConfig) (worker now : ℕ) (definitive : Bool) (delay_ms : ℕ) (error : Text)
    (h : Option ℕ) (id : ℕ) (e : Row)
    → Keeps e
        (if failable worker id e then fail_row config now definitive delay_ms error h e else e)
fail_row-Keeps config worker now definitive delay_ms error h id e =
    elim (Bool-cases (failable worker id e)) [
      | inl hit ↦ rw hit (record {
        same_id = refl;
        same_type = refl;
        same_aggregate_id = refl;
        same_version = refl;
        same_attempts = refl;
        still_settled = λ s. absurd (pending_unsettled e.status (ground arith) s);
      })
      | inr miss ↦ rw miss (record {
        same_id = refl;
        same_type = refl;
        same_aggregate_id = refl;
        same_version = refl;
        same_attempts = refl;
        still_settled = λ s. s;
      })
    ]

pub same_aggregate_kept :
    (p p' e e' : Row)
    → p'.aggregate_type ≡ p.aggregate_type
    → p'.aggregate_id ≡ p.aggregate_id
    → e'.aggregate_type ≡ e.aggregate_type
    → e'.aggregate_id ≡ e.aggregate_id
    → same_aggregate p' e' ≡ true
    → same_aggregate p e ≡ true
same_aggregate_kept p p' e e' a b c d h = rw (a, b, c, d) at h

module _ (f : Row → Row) (keeps : (e : Row) → Keeps e (f e)) (t : Table) (ordered : InOrder t) where
  -- A change of rows of that kind keeps the order, if what it publishes was handed out.
  Keeps-InOrder :
      ((i : ℕ) (e : Row)
        → get_elem? t i ≡ some e
        → (f e).status ≡ OutboxStatus.published
        → 0 < e.attempts)
      → InOrder (map f t)
  Keeps-InOrder started = record {
    distinct = λ i j a b at there same.
        let (c, c_at, c_new) = get_elem?-map f t i at in
        let (d, d_at, d_new) = get_elem?-map f t j there in
        let ids : c.id ≡ d.id =
          sym (keeps c).same_id
          ∙ ap (λ r. r.id) (sym c_new)
          ∙ same
          ∙ ap (λ r. r.id) d_new
          ∙ (keeps d).same_id in
        c_new ∙ ap f (ordered.distinct i j c d c_at d_at ids) ∙ sym d_new;
    settled_before = λ i j e' p' at there begun aggregate earlier.
        let (e, e_at, e_new) = get_elem?-map f t i at in
        let (p, p_at, p_new) = get_elem?-map f t j there in
        let aggregate' = rw (e_new, p_new) at aggregate in
        let ke = keeps e in
        let kp = keeps p in
        let settled =
          ordered.settled_before i j e p e_at p_at
            (omega (arith, ap (λ r. r.attempts) e_new, ke.same_attempts))
            (same_aggregate_kept p (f p) e (f e) kp.same_type kp.same_aggregate_id ke.same_type
              ke.same_aggregate_id aggregate')
            (omega (
              arith,
              ap (λ r. r.aggregate_version) e_new,
              ap (λ r. r.aggregate_version) p_new,
              kp.same_version,
              ke.same_version,
            )) in
        rw p_new (kp.still_settled settled);
    published_started = λ i e' at done.
        let (e, e_at, e_new) = get_elem?-map f t i at in
        omega (
          arith,
          ap (λ r. r.attempts) e_new,
          (keeps e).same_attempts,
          started i e e_at (ap (λ r. r.status) (sym e_new) ∙ done),
        );
  }

pub confirmed :
    (now : ℕ) (h : Option ℕ) (i : ℕ) (event : Row) (t : Table)
    → get_elem? t i ≡ some event
    → 0 < event.attempts
    → InOrder t
    → InOrder (mark_published now event.id h t).0
unfolding mark_published
confirmed now h i event t at begun ordered =
    let f = λ (e : Row). if publishable event.id e then publish_row now h e else e in
    Keeps-InOrder f (publish_row-Keeps now h event.id) t ordered λ j e there done.
      elim (Bool-cases (publishable event.id e)) [
        | inr miss ↦ ordered.published_started j e there (rw miss at done)
        | inl hit ↦
            let same : e ≡ event = ordered.distinct j i e event there at (ground arith) in
            omega (arith, ap (λ r. r.attempts) same)
      ]

pending_open : (s : OutboxStatus) → is_pending s ≡ true → s ≢ OutboxStatus.published
pending_open OutboxStatus.pending h k = cc
pending_open _ h k = cc

failable_open :
    (worker id : ℕ) (e : Row) → failable worker id e ≡ true → e.status ≢ OutboxStatus.published
failable_open worker id e h = pending_open e.status (ground arith)

pub failed :
    (redact : Text → Text) (config : OutboxRelayConfig) (worker now : ℕ) (event : Row)
    (result : PublishResult) (t : Table)
    → InOrder t
    → InOrder (mark_failed redact config worker now event result t).0
unfolding mark_failed
failed redact config worker now event result t ordered =
    Keeps-InOrder _ (λ e. fail_row-Keeps config worker now _ _ _ _ event.id e) t ordered
      λ j e there done. elim (Bool-cases (failable worker event.id e)) [
        | inr miss ↦ ordered.published_started j e there (rw miss at done)
        | inl hit ↦ absurd (
            failed_row_open redact config worker now event _ _ _ _ e
              (failable_open worker event.id e hit) done)
      ]
