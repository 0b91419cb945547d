-- ===== src/Outbox/Steps.antt =====
-- What many workers do to one table, one statement of SQL at a time, and the order that they keep. Replays
-- are left out, since a replay sends an old event again on purpose.
use atlas_erpbackend.Prelude.{ℕ, ◌≡◌, ◌<◌, Bool, true, false, Option, some, get_elem?}
use atlas_erpbackend.Text.{Text}
use atlas_erpbackend.Outbox.Rows.{
  Row, Table, OutboxStatus, is_unsettled, same_aggregate, PublishResult,
}
use atlas_erpbackend.Outbox.Relay.{OutboxRelayConfig, claim_batch, mark_published, mark_failed}
use atlas_erpbackend.Outbox.Tables.{DistinctIds}

-- An event that was handed to a worker at least once has nothing before it that is to be delivered.
pub record InOrder (t : Table) : Type 0 where
  pub distinct : DistinctIds t
  pub settled_before :
      (i j : ℕ) (e p : Row)
      → get_elem? t i ≡ some e
      → get_elem? t j ≡ some p
      → 0 < e.attempts
      → same_aggregate p e ≡ true
      → p.aggregate_version < e.aggregate_version
      → is_unsettled p.status ≡ false
  pub published_started :
      (i : ℕ) (e : Row)
      → get_elem? t i ≡ some e
      → e.status ≡ OutboxStatus.published
      → 0 < e.attempts

-- What the workers do: claim, confirm the delivery of an event that a claim handed out, or record
-- its failure.
pub data Step (redact : Text → Text) (config : OutboxRelayConfig) : Table → Table → Type 0 where
  claim :
      (worker : ℕ) (locked : Row → Bool) (now : ℕ) (t : Table)
      → Step redact config t (claim_batch config worker locked now t).0
  confirm :
      (now : ℕ) (http_status : Option ℕ) (i : ℕ) (event : Row) (t : Table)
      → get_elem? t i ≡ some event
      → 0 < event.attempts
      → Step redact config t (mark_published now event.id http_status t).0
  fail :
      (worker now : ℕ) (event : Row) (result : PublishResult) (t : Table)
      → Step redact config t (mark_failed redact config worker now event result t).0

pub data Reach (redact : Text → Text) (config : OutboxRelayConfig) (s : Table)
    : Table → Type 0 where
  here : Reach redact config s s
  next : {t u : Table} → Reach redact config s t → Step redact config t u → Reach redact config s u
