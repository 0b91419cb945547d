-- ===== src/Outbox/Relay.antt =====
-- src/workers/outbox/outbox-relay.ts: claim a batch by lease, deliver, confirm. Each statement of
-- SQL is one atomic step on the table, at the database's time `now`.
use atlas_erpbackend.Prelude.{
  ℕ, ◌+◌, ◌-◌, ◌*◌, ◌^◌, min, Bool, true, false, not, ◌&&◌, ◌||◌, Option, none, some, List, [], ◌∷◌,
  ◌++◌, map, length, take, any, keep, ltb, leb, ◌==◌, if◌then◌else◌,
}
use atlas_erpbackend.Text.{Text, codes}
use atlas_erpbackend.Text.Decimal.{print}
use atlas_erpbackend.Outbox.Rows.{
  OutboxStatus, is_pending, is_unsettled, Row, Table, same_aggregate, PublishResult, ack, rejected,
  DeliveryOutcome, lease_lost, Envelope, to_envelope,
}

pub record OutboxRelayConfig : Type 0 where
  pub batch_size : ℕ
  pub lease_ms : ℕ
  pub max_attempts : ℕ
  pub retry_base_ms : ℕ
  pub retry_max_ms : ℕ

-- The exponent is `max(0, attempt - 1)`: the subtraction on ℕ stops at 0.
unfoldable pub compute_backoff_ms : ℕ → ℕ → ℕ → ℕ
compute_backoff_ms attempt base_ms max_ms =
    if leb 31 (attempt - 1) then max_ms else min max_ms (base_ms * 2 ^ (attempt - 1))

-- `lease_expires_at IS NULL OR lease_expires_at < now()`
abbrev pub lease_free : ℕ → Row → Bool
lease_free now e = elim (e.lease_expires_at) [ none ↦ true | some t ↦ ltb t now ]

-- An earlier event of the same aggregate is still to be delivered, or dead.
abbrev pub blocks : Row → Row → Bool
blocks e previous =
    same_aggregate previous e
    && ltb previous.aggregate_version e.aggregate_version
    && is_unsettled previous.status

-- The `WHERE` of the candidates.
abbrev pub eligible : ℕ → Table → Row → Bool
eligible now table e =
    is_pending e.status
    && leb e.next_attempt_at now
    && lease_free now e
    && not (any (blocks e) table)

-- `ORDER BY` as an insertion sort.
abbrev pub insert_by : (Row → Row → Bool) → Row → List Row → List Row
insert_by before r [] = r ∷ []
insert_by before r (x ∷ xs) = if before r x then r ∷ (x ∷ xs) else x ∷ insert_by before r xs

abbrev pub sort_by : (Row → Row → Bool) → List Row → List Row
sort_by before [] = []
sort_by before (x ∷ xs) = insert_by before x (sort_by before xs)

-- By `next_attempt_at, id`.
abbrev pub turn_before : Row → Row → Bool
turn_before a b =
    ltb a.next_attempt_at b.next_attempt_at
    || a.next_attempt_at == b.next_attempt_at && leb a.id b.id

abbrev pub id_before : Row → Row → Bool
id_before a b = leb a.id b.id

-- `locked` holds of the rows that another transaction has locked, which `SKIP LOCKED` passes over.
unfoldable pub candidates : (Row → Bool) → ℕ → ℕ → Table → List Row
candidates locked now limit table =
    take limit (sort_by turn_before (keep (λ e. eligible now table e && not (locked e)) table))

abbrev pub chosen : List Row → Row → Bool
chosen picked e = any (λ c. c.id == e.id) picked

-- The `SET` of the claim.
abbrev pub lease_to : ℕ → ℕ → ℕ → Row → Row
lease_to worker now lease_ms e = record e {
  lease_owner = some worker;
  lease_expires_at = some (now + lease_ms);
  attempts = e.attempts + 1;
  last_attempt_at = some now;
}

abbrev pub claim_row : List Row → ℕ → ℕ → ℕ → Row → Row
claim_row picked worker now lease_ms e =
    if chosen picked e then lease_to worker now lease_ms e else e

-- The table after the claim, and the rows returned, by id.
unfoldable pub claim_batch : OutboxRelayConfig → ℕ → (Row → Bool) → ℕ → Table → Table × List Row
claim_batch config worker locked now table =
    let picked = candidates locked now config.batch_size table in
    (
      map (claim_row picked worker now config.lease_ms) table,
      sort_by id_before (map (lease_to worker now config.lease_ms) (keep (chosen picked) table)),
    )

-- The `SET` and the `WHERE` of `markPublished`.
abbrev pub publish_row : ℕ → Option ℕ → Row → Row
publish_row now http_status e = record e {
  status = OutboxStatus.published;
  published_at = some now;
  dead_at = none;
  last_http_status = http_status;
  last_error = none;
  lease_owner = none;
  lease_expires_at = none;
}

abbrev pub publishable : ℕ → Row → Bool
publishable id e = e.id == id && is_unsettled e.status

unfoldable pub mark_published : ℕ → ℕ → Option ℕ → Table → Table × DeliveryOutcome
mark_published now id http_status table = (
  map (λ e. if publishable id e then publish_row now http_status e else e) table,
  if any (publishable id) table then DeliveryOutcome.published else lease_lost,
)

-- The `SET` and the `WHERE` of `markFailed`.
abbrev pub exhausted : OutboxRelayConfig → Bool → Row → Bool
exhausted config definitive e = definitive || leb config.max_attempts e.attempts

abbrev pub fail_row : OutboxRelayConfig → ℕ → Bool → ℕ → Text → Option ℕ → Row → Row
fail_row config now definitive delay_ms error http_status e = record e {
  status = if exhausted config definitive e then OutboxStatus.dead else OutboxStatus.pending;
  dead_at = if exhausted config definitive e then some now else none;
  next_attempt_at = now + delay_ms;
  last_error = some error;
  last_http_status = http_status;
  lease_owner = none;
  lease_expires_at = none;
}

abbrev pub owned_by : ℕ → Row → Bool
owned_by worker e = elim (e.lease_owner) [ none ↦ false | some w ↦ w == worker ]

abbrev pub failable : ℕ → ℕ → Row → Bool
failable worker id e = e.id == id && is_pending e.status && owned_by worker e

-- `rows[0]?.status` of the rows that the statement changed.
abbrev pub first_outcome : List Row → DeliveryOutcome
first_outcome [] = lease_lost
first_outcome (r ∷ rs) = elim (r.status) [
  | OutboxStatus.dead ↦ DeliveryOutcome.dead
  | _ ↦ DeliveryOutcome.retry
]

abbrev pub exhausted_error : ℕ → Text
exhausted_error attempts =
    codes "agotado: " ++ (print (attempts - 1) ++ codes " reservas sin confirmación")

abbrev pub is_rejected : PublishResult → Bool
is_rejected (rejected _ _) = true
is_rejected _ = false

abbrev pub http_status_of : PublishResult → Option ℕ
http_status_of (ack s) = s
http_status_of (PublishResult.retry _ s) = s
http_status_of (rejected _ s) = s

abbrev pub error_of : PublishResult → Text
error_of (ack _) = []
error_of (PublishResult.retry e _) = e
error_of (rejected e _) = e

-- What the call of the publisher came to: a result, or an exception with its text.
pub data Answer : Type 0 where
  returned : PublishResult → Answer
  thrown : Text → Answer

-- `Record<DeliveryOutcome, number>`
pub record Outcomes : Type 0 where
  pub published : ℕ
  pub retry : ℕ
  pub dead : ℕ
  pub lease_lost : ℕ

abbrev pub no_outcomes : Outcomes
no_outcomes = record { published = 0; retry = 0; dead = 0; lease_lost = 0 }

abbrev pub count_outcome : DeliveryOutcome → Outcomes → Outcomes
count_outcome DeliveryOutcome.published o = record o { published = o.published + 1 }
count_outcome DeliveryOutcome.retry o = record o { retry = o.retry + 1 }
count_outcome DeliveryOutcome.dead o = record o { dead = o.dead + 1 }
count_outcome lease_lost o = record o { lease_lost = o.lease_lost + 1 }

pub record RunSummary : Type 0 where
  pub transport_configured : Bool
  pub claimed : ℕ
  pub outcomes : Outcomes

-- `redact` stands for `redactDeliveryError`, which only rewrites the text of an error.
module _ (redact : Text → Text) (config : OutboxRelayConfig) (worker : ℕ) where
  unfoldable pub mark_failed : ℕ → Row → PublishResult → Table → Table × DeliveryOutcome
  mark_failed now event result table =
      let definitive = is_rejected result in
      let delay_ms = compute_backoff_ms event.attempts config.retry_base_ms config.retry_max_ms in
      let change =
        fail_row config now definitive delay_ms (redact (error_of result))
          (http_status_of result) in
      let table' = map (λ e. if failable worker event.id e then change e else e) table in
      (table', first_outcome (map change (keep (failable worker event.id) table)))

  abbrev pub result_of : Answer → PublishResult
  result_of (returned r) = r
  result_of (thrown message) =
      PublishResult.retry (redact (codes "fallo del adaptador: " ++ message)) none

  abbrev pub record_result : ℕ → Row → PublishResult → Table → Table × DeliveryOutcome
  record_result now event (ack http_status) table = mark_published now event.id http_status table
  record_result now event result table = mark_failed now event result table

  -- `publish` answers an envelope at an attempt; `now` is the time at which the result is written.
  unfoldable pub deliver : (Envelope → ℕ → Answer) → ℕ → Row → Table → Table × DeliveryOutcome
  deliver publish now event table =
      if ltb config.max_attempts event.attempts
      then mark_failed now event (rejected (exhausted_error event.attempts) none) table
      else record_result now event (result_of (publish (to_envelope event) event.attempts)) table

  -- The events of a batch one after another; `at` is the time at which each result is written.
  unfoldable pub deliver_all :
      (Envelope → ℕ → Answer) → (Row → ℕ) → List Row → Outcomes → Table → Table × Outcomes
  deliver_all publish at [] outcomes table = (table, outcomes)
  deliver_all publish at (event ∷ events) outcomes table =
      let (table', outcome) = deliver publish (at event) event table in
      deliver_all publish at events (count_outcome outcome outcomes) table'

  -- With no transport nothing is claimed.
  unfoldable pub run_once :
      Option (Envelope → ℕ → Answer) → (Row → Bool) → ℕ → (Row → ℕ) → Table → Table × RunSummary
  run_once none locked now at table =
      (table, record { transport_configured = false; claimed = 0; outcomes = no_outcomes })
  run_once (some publish) locked now at table =
      let (claimed_table, events) = claim_batch config worker locked now table in
      let (table', outcomes) = deliver_all publish at events no_outcomes claimed_table in
      (table', record { transport_configured = true; claimed = length events; outcomes = outcomes })
