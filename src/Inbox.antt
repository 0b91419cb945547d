-- ===== src/Inbox.antt =====
-- The inbox of a consumer of events: src/common/events/event-inbox.ts. The two tables stand beside the
-- state on which the effect works, since all three change in one transaction: an error leaves them as
-- they were. The unique keys are tests for a row that is there.
pub mod Once
pub mod Versions
pub mod Upsert
pub mod Latest
use atlas_erpbackend.Prelude.{
  ℕ, Bool, true, false, ◌&&◌, Option, none, some, List, [], ◌∷◌, ◌++◌, map, any, ltb, if◌then◌else◌,
  Result, ok, err, ◌>>=◌,
}
use atlas_erpbackend.Text.{Text, text_eq}

pub data InboxOrdering : Type 0 where
  every_event latest_state : InboxOrdering

pub record Aggregate : Type 0 where
  pub type : Text
  pub id : Text
  pub version : ℕ

pub record InboxEvent : Type 0 where
  pub event_key : Text
  pub topic : Text
  pub schema_version : Option ℕ
  pub aggregate : Option Aggregate

pub data InboxResult (T : Type 0) : Type 0 where
  applied : T → InboxResult T
  duplicate : InboxResult T
  stale : ℕ → InboxResult T

pub data Outcome : Type 0 where
  row_applied row_stale : Outcome

-- A row of event_inbox.
pub record InboxRow : Type 0 where
  pub consumer : Text
  pub event_key : Text
  pub topic : Text
  pub aggregate : Option Aggregate
  pub schema_version : ℕ
  pub outcome : Outcome

-- A row of event_inbox_aggregate.
pub record AggregateRow : Type 0 where
  pub consumer : Text
  pub type : Text
  pub id : Text
  pub last_version : ℕ

pub record Inbox (S : Type 0) : Type 0 where
  pub rows : List InboxRow
  pub aggregates : List AggregateRow
  pub state : S

-- What the call throws: its own error, or that of the effect.
pub data InboxError (E : Type 0) : Type 0 where
  version_required : InboxError E
  effect_failed : E → InboxError E

abbrev pub or_1 : Option ℕ → ℕ
or_1 none = 1
or_1 (some n) = n

abbrev pub is_row_of : Text → Text → InboxRow → Bool
is_row_of consumer key row = text_eq row.consumer consumer && text_eq row.event_key key

abbrev pub new_row : Text → InboxEvent → Outcome → InboxRow
new_row consumer event outcome = record {
  consumer = consumer;
  event_key = event.event_key;
  topic = event.topic;
  aggregate = event.aggregate;
  schema_version = or_1 event.schema_version;
  outcome = outcome;
}

abbrev pub is_row_for : Text → Aggregate → AggregateRow → Bool
is_row_for consumer a row =
    text_eq row.consumer consumer && text_eq row.type a.type && text_eq row.id a.id

-- `INSERT … ON CONFLICT … DO UPDATE … WHERE last_version < EXCLUDED.last_version`: the table after it, or
-- the version that is there where it changed no row.
pub data Advance : Type 0 where
  advanced : List AggregateRow → Advance
  behind : ℕ → Advance

abbrev pub push_row : AggregateRow → Advance → Advance
push_row row (advanced rows) = advanced (row ∷ rows)
push_row row (behind n) = behind n

unfoldable pub advance : Text → Aggregate → List AggregateRow → Advance
advance consumer a [] =
    advanced
      (record { consumer = consumer; type = a.type; id = a.id; last_version = a.version } ∷ [])
advance consumer a (row ∷ rows) =
    let rest = advance consumer a rows in
    if is_row_for consumer a row
    then if ltb row.last_version a.version
      then advanced (record row { last_version = a.version } ∷ rows)
      else behind row.last_version
    else push_row row rest

module _ {E S T : Type 0} (effect : InboxEvent → S → Result E (S × T)) where
  -- `await effect(tx)`, past both tables.
  abbrev pub apply_effect :
      InboxEvent
      → List InboxRow
      → List AggregateRow
      → S
      → Result (InboxError E) (Inbox S × InboxResult T)
  apply_effect event rows aggregates state = elim (effect event state) [
    | err e ↦ err (effect_failed e)
    | ok (after, value) ↦
        ok (record { rows = rows; aggregates = aggregates; state = after }, applied value)
  ]

  -- The branch of `latest-state`.
  abbrev pub apply_latest :
      Text → InboxEvent → Aggregate → Inbox S → Result (InboxError E) (Inbox S × InboxResult T)
  apply_latest consumer event a inbox = elim (advance consumer a inbox.aggregates) [
    | advanced rows ↦
        apply_effect event (inbox.rows ++ (new_row consumer event row_applied ∷ [])) rows
          inbox.state
    | behind last ↦
        ok (
          record inbox { rows = inbox.rows ++ (new_row consumer event row_stale ∷ []) },
          stale last,
        )
  ]

  abbrev pub apply_ordered :
      Text
      → InboxOrdering
      → InboxEvent
      → Option Aggregate
      → Inbox S
      → Result (InboxError E) (Inbox S × InboxResult T)
  apply_ordered consumer every_event event a inbox =
      apply_effect event (inbox.rows ++ (new_row consumer event row_applied ∷ [])) inbox.aggregates
        inbox.state
  apply_ordered consumer latest_state event none inbox = err version_required
  apply_ordered consumer latest_state event (some a) inbox = apply_latest consumer event a inbox

  -- The error of a missing version comes before the key is looked at.
  abbrev pub lacks_version : InboxOrdering → Option Aggregate → Bool
  lacks_version every_event _ = false
  lacks_version latest_state none = true
  lacks_version latest_state (some _) = false

  unfoldable pub consume_once :
      Text → InboxOrdering → InboxEvent → Inbox S → Result (InboxError E) (Inbox S × InboxResult T)
  consume_once consumer ordering event inbox =
      if lacks_version ordering event.aggregate
      then err version_required
      else if any (is_row_of consumer event.event_key) inbox.rows
      then ok (inbox, duplicate)
      else apply_ordered consumer ordering event event.aggregate inbox

  -- A transaction around the call: an error rolls it back.
  abbrev pub committed : Inbox S → Result (InboxError E) (Inbox S × InboxResult T) → Inbox S
  committed before (ok (after, result)) = after
  committed before (err e) = before

  -- The deliveries that reach one consumer, one transaction after another.
  unfoldable pub consume_all : Text → InboxOrdering → List InboxEvent → Inbox S → Inbox S
  consume_all consumer ordering [] inbox = inbox
  consume_all consumer ordering (event ∷ events) inbox =
      consume_all consumer ordering events
        (committed inbox (consume_once consumer ordering event inbox))
