-- ===== src/Tests/Outbox.antt =====
-- The relay, on a queue of two events of one aggregate.
use atlas_erpbackend.Prelude.{
  ℕ, zero, suc, ◌-◌, ◌*◌, ◌^◌, ◌≤◌, ◌<◌, ◌≡◌, refl, sym, ap, ◌∙◌, subst, min, Bool, true, false,
  Option, none, some, [], ◌∷◌, arith, get_elem?,
}
use atlas_erpbackend.Text.{Text, codes}
use atlas_erpbackend.Outbox.Rows.{
  OutboxStatus, is_unsettled, same_aggregate, Row, Table, ack, Envelope, to_envelope,
}
use atlas_erpbackend.Outbox.Relay.{
  OutboxRelayConfig, compute_backoff_ms, claim_batch, candidates, mark_published, lease_to,
  publish_row, deliver, Answer, returned,
}
use atlas_erpbackend.Outbox.Tables.{DistinctIds}
use atlas_erpbackend.Outbox.Claims.{IsClaimed, claim_batch-exclusive}
use atlas_erpbackend.Outbox.Delivery.{deliver_published_only_by_ack}
use atlas_erpbackend.Outbox.Steps.{InOrder, Step, Reach}
use atlas_erpbackend.Outbox.Order.{Reach-settled_before}
use atlas_erpbackend.Outbox.Backoff.{compute_backoff_ms_bounds, compute_backoff_ms_uncut}

abbrev event : ℕ → OutboxStatus → ℕ → Row
event n status attempts = record {
  id = n;
  topic = codes "accounting.document.posted";
  aggregate_type = codes "accounting_document";
  aggregate_id = 9;
  aggregate_version = n;
  schema_version = 1;
  event_key = codes "key";
  payload = [];
  created_at = 0;
  status = status;
  attempts = attempts;
  next_attempt_at = 0;
  lease_owner = none;
  lease_expires_at = none;
  last_attempt_at = none;
  published_at = none;
  dead_at = none;
  last_http_status = none;
  last_error = none;
  replay_count = 0;
}

abbrev first : Row
first = event 1 OutboxStatus.published 1

abbrev second : Row
second = event 2 OutboxStatus.pending 0

abbrev queue : Table
queue = first ∷ (second ∷ [])

abbrev config : OutboxRelayConfig
config = record {
  batch_size = 10;
  lease_ms = 50;
  max_attempts = 3;
  retry_base_ms = 10;
  retry_max_ms = 1000;
}

abbrev none_locked : Row → Bool
none_locked e = false

some_row : {a b : Row} → some a ≡ some b → a ≡ b
some_row h = cc

no_row : {a : Row} → none ≡ some a → ⊥
no_row h = cc

one_two : ◌≡◌ {A = ℕ} 1 2 → ⊥
one_two h = omega (arith, h)

queue-DistinctIds : DistinctIds queue
queue-DistinctIds zero zero a b h k e = sym (some_row h) ∙ some_row k
queue-DistinctIds zero (suc zero) a b h k e =
    absurd (one_two (ap (λ r. r.id) (some_row h) ∙ e ∙ ap (λ r. r.id) (sym (some_row k))))
queue-DistinctIds (suc zero) zero a b h k e =
    absurd (one_two (ap (λ r. r.id) (some_row k) ∙ sym e ∙ ap (λ r. r.id) (sym (some_row h))))
queue-DistinctIds (suc zero) (suc zero) a b h k e = sym (some_row h) ∙ some_row k
queue-DistinctIds zero (suc (suc j)) a b h k e = absurd (no_row k)
queue-DistinctIds (suc zero) (suc (suc j)) a b h k e = absurd (no_row k)
queue-DistinctIds (suc (suc i)) j a b h k e = absurd (no_row h)

abbrev leased : Row
leased = lease_to 7 100 50 second

claimed_queue : (claim_batch config 7 none_locked 100 queue).0 ≡ first ∷ (leased ∷ [])
unfolding claim_batch candidates
claimed_queue = refl

second-IsClaimed : IsClaimed 7 100 50 none_locked queue second leased
second-IsClaimed = record { claimable = refl; unlocked = refl; leased = refl }

second_claimed : get_elem? (claim_batch config 7 none_locked 100 queue).0 1 ≡ some leased
unfolding claim_batch candidates
second_claimed = refl

claim_batch-exclusive_example :
    get_elem?
      (claim_batch config 8 none_locked 120 (claim_batch config 7 none_locked 100 queue).0).0
      1
    ≡ some leased
claim_batch-exclusive_example =
    claim_batch-exclusive config 7 none_locked 100 queue queue-DistinctIds 1 second leased config 8
      none_locked 120 second_claimed second-IsClaimed (omega arith)

abbrev accepting : Envelope → ℕ → Answer
accepting envelope attempt = returned (ack (some 200))

abbrev redact : Text → Text
redact t = t

abbrev delivered : Row
delivered = publish_row 130 (some 200) leased

second_delivered :
    get_elem? (deliver redact config 7 accepting 130 leased (first ∷ (leased ∷ []))).0 1
    ≡ some delivered
unfolding deliver mark_published
second_delivered = refl

pending_open : OutboxStatus.pending ≡ OutboxStatus.published → ⊥
pending_open h = cc

deliver_published_only_by_ack_example :
    (http_status : Option ℕ) × (accepting (to_envelope leased) 1 ≡ returned (ack http_status))
    × (1 ≤ 3)
    × (delivered.published_at ≡ some 130)
deliver_published_only_by_ack_example =
    deliver_published_only_by_ack redact config 7 130 leased accepting (first ∷ (leased ∷ [])) 1
      leased delivered refl pending_open second_delivered refl

started : {e : Row} → second ≡ e → 0 < e.attempts → ⊥
started h k = omega (arith, ap (λ r. r.attempts) h)

later : {e p : Row} → first ≡ e → second ≡ p → p.aggregate_version < e.aggregate_version → ⊥
later h k v = omega (arith, ap (λ r. r.aggregate_version) h, ap (λ r. r.aggregate_version) k)

queue-InOrder : InOrder queue
queue-InOrder = record {
  distinct = queue-DistinctIds;
  settled_before = settled;
  published_started = published_started;
}
  where
    settled :
        (i j : ℕ) (e p : Row)
        → get_elem? queue i ≡ some e
        → get_elem? queue j ≡ some p
        → 0 < e.attempts
        → same_aggregate p e ≡ true
        → p.aggregate_version < e.aggregate_version
        → is_unsettled p.status ≡ false
    settled i zero e p h k s a v = ap (λ r. is_unsettled r.status) (sym (some_row k))
    settled zero (suc zero) e p h k s a v = absurd (later (some_row h) (some_row k) v)
    settled zero (suc (suc j)) e p h k s a v = absurd (no_row k)
    settled (suc zero) j e p h k s a v = absurd (started (some_row h) s)
    settled (suc (suc i)) j e p h k s a v = absurd (no_row h)

    published_started :
        (i : ℕ) (e : Row)
        → get_elem? queue i ≡ some e
        → e.status ≡ OutboxStatus.published
        → 0 < e.attempts
    published_started zero e h s = subst (λ r. 0 < r.attempts) (some_row h) (omega arith)
    published_started (suc zero) e h s = absurd (pending_open (ap (λ r. r.status) (some_row h) ∙ s))
    published_started (suc (suc i)) e h s = absurd (no_row h)

second_published :
    get_elem? (mark_published 130 2 (some 200) (claim_batch config 7 none_locked 100 queue).0).0 1
    ≡ some delivered
unfolding claim_batch candidates mark_published
second_published = refl

first_published :
    get_elem? (mark_published 130 2 (some 200) (claim_batch config 7 none_locked 100 queue).0).0 0
    ≡ some first
unfolding claim_batch candidates mark_published
first_published = refl

two_steps :
    Reach redact config queue
      (mark_published 130 leased.id (some 200) (claim_batch config 7 none_locked 100 queue).0).0
two_steps = Reach.next (Reach.next Reach.here (Step.claim 7 none_locked 100 queue)) (
    Step.confirm 130 (some 200) 1 leased (claim_batch config 7 none_locked 100 queue).0
      second_claimed (omega arith))

Reach-settled_before_example : is_unsettled first.status ≡ false
Reach-settled_before_example =
    Reach-settled_before redact config queue
      (mark_published 130 leased.id (some 200) (claim_batch config 7 none_locked 100 queue).0).0
      queue-InOrder two_steps 1 0 delivered first second_published first_published refl refl
      (omega arith)

compute_backoff_ms_bounds_example :
    (compute_backoff_ms 9 10 1000 ≤ 1000)
    × (compute_backoff_ms 2 10 1000 ≤ compute_backoff_ms 9 10 1000)
compute_backoff_ms_bounds_example = compute_backoff_ms_bounds 2 9 10 1000 (omega arith)

compute_backoff_ms_uncut_example : compute_backoff_ms 40 10 1000 ≡ min 1000 (10 * 2 ^ (40 - 1))
compute_backoff_ms_uncut_example = compute_backoff_ms_uncut 40 10 1000 (omega arith) (omega arith)
