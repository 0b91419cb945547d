-- ===== src/Outbox/Operations.antt =====
-- `replayEvent` of src/workers/outbox/outbox-operations.ts.
use atlas_erpbackend.Prelude.{
  ℕ, ◌+◌, Bool, true, false, not, Option, none, List, [], ◌∷◌, map, keep, if◌then◌else◌,
}
use atlas_erpbackend.Text.{Text, text_eq}
use atlas_erpbackend.Outbox.Rows.{OutboxStatus, dead, legacy_log_only, Row, Table}

pub data ReplayResult : Type 0 where
  replayed :
      (event_key : Text) (previous_status : OutboxStatus) (previous_attempts : ℕ)
      (previous_published_at : Option ℕ) (replay_count : ℕ) (aggregate_type : Text)
      (aggregate_id : ℕ)
      → ReplayResult
  not_found : ReplayResult
  not_replayable : OutboxStatus → ReplayResult

abbrev pub has_key : Text → Row → Bool
has_key key e = text_eq e.event_key key

abbrev pub replayable : OutboxStatus → Bool
replayable dead = true
replayable legacy_log_only = true
replayable _ = false

-- The `SET` of the replay.
abbrev pub replay_row : ℕ → Row → Row
replay_row now e = record e {
  status = OutboxStatus.pending;
  published_at = none;
  dead_at = none;
  attempts = 0;
  next_attempt_at = now;
  lease_owner = none;
  lease_expires_at = none;
  replay_count = e.replay_count + 1;
}

-- `current.rows[0]`, and the answer from the row before and after; the row does not disappear
-- under its own lock.
abbrev pub replay_found : ℕ → Text → Table → List Row → Table × ReplayResult
replay_found now key table [] = (table, not_found)
replay_found now key table (row ∷ rows) =
    if not (replayable row.status) then (table, not_replayable row.status) else (
      map (λ e. if has_key key e then replay_row now e else e) table,
      replayed key row.status row.attempts row.published_at (replay_row now row).replay_count
          row.aggregate_type row.aggregate_id,
    )

unfoldable pub replay_event : ℕ → Text → Table → Table × ReplayResult
replay_event now key table = replay_found now key table (keep (has_key key) table)
