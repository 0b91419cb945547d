-- ===== src/Outbox/Delivery.antt =====
-- What a delivery writes, for every answer of the publisher.
use atlas_erpbackend.Prelude.{
  ℕ, ◌≡◌, ◌≤◌, ◌≢◌, refl, sym, ap, ◌∙◌, Bool, true, false, Option, some, arith, ltb, if◌then◌else◌,
  get_elem?, Bool-cases, inl, inr,
}
use atlas_erpbackend.Text.{Text}
use atlas_erpbackend.Outbox.Rows.{
  Row, Table, OutboxStatus, PublishResult, ack, rejected, Envelope, to_envelope,
}
use atlas_erpbackend.Outbox.Relay.{
  OutboxRelayConfig, mark_published, mark_failed, publishable, failable, fail_row, deliver, Answer,
  result_of, record_result, exhausted, returned, thrown,
}
use atlas_erpbackend.Outbox.Tables.{get_elem?-map_eq}

module _ (redact : Text → Text) (config : OutboxRelayConfig) (worker now : ℕ) (event : Row) where
  pub failed_row_open :
      (definitive : Bool) (delay_ms : ℕ) (error : Text) (http_status : Option ℕ) (e : Row)
      → e.status ≢ OutboxStatus.published
      → (if failable worker event.id e
          then fail_row config now definitive delay_ms error http_status e
          else e).status
        ≢ OutboxStatus.published
  failed_row_open definitive delay_ms error http_status e open_row =
      elim (Bool-cases (failable worker event.id e)) [
        | inr kept ↦ rw kept open_row
        | inl failed ↦ rw failed (fail_open (exhausted config definitive e))
      ]
    where
      fail_open :
          (b : Bool)
          → (if b then OutboxStatus.dead else OutboxStatus.pending) ≢ OutboxStatus.published
      fail_open true h = cc
      fail_open false h = cc

  -- A result that is no acknowledgement publishes nothing.
  mark_failed_open :
      (result : PublishResult) (table : Table) (i : ℕ) (e e' : Row)
      → get_elem? table i ≡ some e
      → e.status ≢ OutboxStatus.published
      → get_elem? (mark_failed redact config worker now event result table).0 i ≡ some e'
      → e'.status ≢ OutboxStatus.published
  unfolding mark_failed
  mark_failed_open result table i e e' at open_row at' done =
      failed_row_open _ _ _ _ e open_row
        (ap (λ r. r.status) (get_elem?-map_eq _ table i at at') ∙ done)

  mark_published_row :
      (http_status : Option ℕ) (table : Table) (i : ℕ) (e e' : Row)
      → get_elem? table i ≡ some e
      → e.status ≢ OutboxStatus.published
      → get_elem? (mark_published now event.id http_status table).0 i ≡ some e'
      → e'.status ≡ OutboxStatus.published
      → e'.published_at ≡ some now
  unfolding mark_published
  mark_published_row http_status table i e e' at open_row at' done =
      let change = get_elem?-map_eq _ table i at at' in
      elim (Bool-cases (publishable event.id e)) [
        | inl hit ↦ ap (λ r. r.published_at) (sym (rw hit at change))
        | inr miss ↦ absurd (open_row (ap (λ r. r.status) (rw miss at change) ∙ done))
      ]

  -- What a publication says of the answer that caused it.
  IsAcknowledged : Answer → Row → Type 0
  IsAcknowledged answer e' =
      (http_status : Option ℕ) × (answer ≡ returned (ack http_status))
      × (event.attempts ≤ config.max_attempts)
      × (e'.published_at ≡ some now)

  answer-IsAcknowledged :
      (answer : Answer) (table : Table) (i : ℕ) (e e' : Row)
      → get_elem? table i ≡ some e
      → e.status ≢ OutboxStatus.published
      → event.attempts ≤ config.max_attempts
      → get_elem?
          (record_result redact config worker now event
            (result_of redact config worker answer)
            table).0
          i
        ≡ some e'
      → e'.status ≡ OutboxStatus.published
      → IsAcknowledged answer e'
  unfolding IsAcknowledged
  answer-IsAcknowledged (returned (ack h)) table i e e' at open_row few at' done =
      (h, refl, few, mark_published_row h table i e e' at open_row at' done)
  answer-IsAcknowledged (returned (PublishResult.retry m h)) table i e e' at open_row few at' done =
      absurd (mark_failed_open (PublishResult.retry m h) table i e e' at open_row at' done)
  answer-IsAcknowledged (returned (rejected m h)) table i e e' at open_row few at' done =
      absurd (mark_failed_open (rejected m h) table i e e' at open_row at' done)
  answer-IsAcknowledged (thrown m) table i e e' at open_row few at' done =
      absurd (mark_failed_open _ table i e e' at open_row at' done)

  -- A delivery makes a row that was not PUBLISHED so only by an acknowledgement of the publisher for
  -- the delivered event, within the attempts allowed, at the time of the delivery.
  pub deliver_published_only_by_ack :
      (publish : Envelope → ℕ → Answer) (table : Table) (i : ℕ) (e e' : Row)
      → get_elem? table i ≡ some e
      → e.status ≢ OutboxStatus.published
      → get_elem? (deliver redact config worker publish now event table).0 i ≡ some e'
      → e'.status ≡ OutboxStatus.published
      → (http_status : Option ℕ) × (publish (to_envelope event) event.attempts
          ≡ returned (ack http_status))
        × (event.attempts ≤ config.max_attempts)
        × (e'.published_at ≡ some now)
  unfolding deliver IsAcknowledged
  deliver_published_only_by_ack publish table i e e' at open_row at' done =
      elim (Bool-cases (ltb config.max_attempts event.attempts)) [
        | inl spent ↦ absurd (mark_failed_open _ table i e e' at open_row (rw spent at at') done)
        | inr few ↦
            answer-IsAcknowledged (publish (to_envelope event) event.attempts) table i e e' at
              open_row (ground arith) (rw few at at') done
      ]
