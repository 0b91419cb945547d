-- ===== src/Outbox/Rows.antt =====
-- The table atlas_accounting.event_outbox, as the relay reads and writes it, the envelope that
-- travels, and the results of a delivery (event-publisher.port.ts). Times are milliseconds.
use atlas_erpbackend.Prelude.{ℕ, Bool, true, false, ◌&&◌, Option, List, ◌==◌}
use atlas_erpbackend.Text.{Text, text_eq}

pub data OutboxStatus : Type 0 where
  pending published dead legacy_log_only : OutboxStatus

abbrev pub is_pending : OutboxStatus → Bool
is_pending pending = true
is_pending _ = false

-- `status IN ('PENDING', 'DEAD')`
abbrev pub is_unsettled : OutboxStatus → Bool
is_unsettled pending = true
is_unsettled dead = true
is_unsettled _ = false

pub record Row : Type 0 where
  pub id : ℕ
  pub topic : Text
  pub aggregate_type : Text
  pub aggregate_id : ℕ
  pub aggregate_version : ℕ
  pub schema_version : ℕ
  pub event_key : Text
  pub payload : Text
  pub created_at : ℕ
  pub status : OutboxStatus
  pub attempts : ℕ
  pub next_attempt_at : ℕ
  pub lease_owner : Option ℕ
  pub lease_expires_at : Option ℕ
  pub last_attempt_at : Option ℕ
  pub published_at : Option ℕ
  pub dead_at : Option ℕ
  pub last_http_status : Option ℕ
  pub last_error : Option Text
  pub replay_count : ℕ

abbrev pub Table : Type 0
Table = List Row

abbrev pub same_aggregate : Row → Row → Bool
same_aggregate a b = text_eq a.aggregate_type b.aggregate_type && a.aggregate_id == b.aggregate_id

pub data PublishResult : Type 0 where
  ack : Option ℕ → PublishResult
  retry : Text → Option ℕ → PublishResult
  rejected : Text → Option ℕ → PublishResult

pub data DeliveryOutcome : Type 0 where
  published retry dead lease_lost : DeliveryOutcome

pub record Envelope : Type 0 where
  pub event_key : Text
  pub topic : Text
  pub schema_version : ℕ
  pub aggregate_type : Text
  pub aggregate_id : ℕ
  pub aggregate_version : ℕ
  pub occurred_at : ℕ
  pub payload : Text

pub to_envelope : Row → Envelope
to_envelope event = record {
  event_key = event.event_key;
  topic = event.topic;
  schema_version = event.schema_version;
  aggregate_type = event.aggregate_type;
  aggregate_id = event.aggregate_id;
  aggregate_version = event.aggregate_version;
  occurred_at = event.created_at;
  payload = event.payload;
}
