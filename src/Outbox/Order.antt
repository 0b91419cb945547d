-- ===== src/Outbox/Order.antt =====
-- claimBatch, markPublished and markFailed by many workers on one table.
use atlas_erpbackend.Prelude.{
  ℕ, ◌≡◌, ◌<◌, refl, sym, ap, ◌∙◌, Bool, true, false, some, arith, get_elem?, inl, inr, ◌⊎◌,
}
use atlas_erpbackend.Text.{Text}
use atlas_erpbackend.Outbox.Rows.{Row, Table, OutboxStatus, is_unsettled, same_aggregate}
use atlas_erpbackend.Outbox.Relay.{OutboxRelayConfig, claim_batch}
use atlas_erpbackend.Outbox.Claims.{
  eligible_settled, IsClaimed, claim_batch-origin, claim_batch-DistinctIds,
}
use atlas_erpbackend.Outbox.Steps.{InOrder, Step, claim, confirm, fail, Reach, here, next}
use atlas_erpbackend.Outbox.Settled.{same_aggregate_kept, confirmed, failed}

-- A row under a claim keeps all that the order looks at but its attempts.
record Unmoved (e e' : Row) : Type 0 where
  same_type : e'.aggregate_type ≡ e.aggregate_type
  same_aggregate_id : e'.aggregate_id ≡ e.aggregate_id
  same_version : e'.aggregate_version ≡ e.aggregate_version
  same_status : e'.status ≡ e.status

module _ (worker now lease_ms : ℕ) (locked : Row → Bool) (t : Table) where
  claimed-Unmoved :
      (e e' : Row) → (e' ≡ e) ⊎ IsClaimed worker now lease_ms locked t e e' → Unmoved e e'
  claimed-Unmoved e e' (inl same) = rw same (record {
    same_type = refl;
    same_aggregate_id = refl;
    same_version = refl;
    same_status = refl;
  })
  claimed-Unmoved e e' (inr claimed) = rw (claimed.leased) (record {
    same_type = refl;
    same_aggregate_id = refl;
    same_version = refl;
    same_status = refl;
  })

claimed-InOrder :
    (config : OutboxRelayConfig) (worker : ℕ) (locked : Row → Bool) (now : ℕ) (t : Table)
    → InOrder t
    → InOrder (claim_batch config worker locked now t).0
claimed-InOrder config worker locked now t ordered = record {
  distinct = claim_batch-DistinctIds config worker locked now t ordered.distinct;
  settled_before = λ i j e' p' at there begun aggregate earlier.
      let (e, e_at, e_moved) =
        claim_batch-origin config worker locked now t ordered.distinct i e' at in
      let (p, p_at, p_moved) =
        claim_batch-origin config worker locked now t ordered.distinct j p' there in
      let e_same = claimed-Unmoved worker now config.lease_ms locked t e e' e_moved in
      let p_same = claimed-Unmoved worker now config.lease_ms locked t p p' p_moved in
      let aggregate' =
        same_aggregate_kept p p' e e' p_same.same_type p_same.same_aggregate_id e_same.same_type
          e_same.same_aggregate_id aggregate in
      let earlier' : p.aggregate_version < e.aggregate_version =
        omega (arith, e_same.same_version, p_same.same_version) in
      rw p_same.same_status (elim e_moved [
        | inl same ↦
            ordered.settled_before i j e p e_at p_at (omega (arith, ap (λ r. r.attempts) same))
              aggregate' earlier'
        | inr claimed ↦ eligible_settled now t e p j claimed.claimable p_at aggregate' earlier'
      ]);
  published_started = λ i e' at done.
      let (e, e_at, e_moved) =
        claim_batch-origin config worker locked now t ordered.distinct i e' at in
      let e_same = claimed-Unmoved worker now config.lease_ms locked t e e' e_moved in
      elim e_moved [
        | inl same ↦ omega (
          arith,
          ap (λ r. r.attempts) same,
          ordered.published_started i e e_at (sym e_same.same_status ∙ done),
        )
        | inr claimed ↦ omega (arith, ap (λ r. r.attempts) claimed.leased)
      ];
}

Step-InOrder :
    {redact : Text → Text} {config : OutboxRelayConfig} {t u : Table}
    → Step redact config t u
    → InOrder t
    → InOrder u
Step-InOrder {config = c} (claim worker locked now t) ordered =
    claimed-InOrder c worker locked now t ordered
Step-InOrder (confirm now h i event t at begun) ordered = confirmed now h i event t at begun ordered
Step-InOrder {redact = r} {config = c} (fail worker now event result t) ordered =
    failed r c worker now event result t ordered

Reach-InOrder :
    {redact : Text → Text} {config : OutboxRelayConfig} {s t : Table}
    → Reach redact config s t
    → InOrder s
    → InOrder t
Reach-InOrder here ordered = ordered
Reach-InOrder (next r step) ordered = Step-InOrder step (Reach-InOrder r ordered)

-- Whatever any number of workers do, and in whatever order their statements run, when an event is
-- PUBLISHED no earlier event of its aggregate is PENDING or DEAD; the table began in that order.
pub Reach-settled_before :
    (redact : Text → Text) (config : OutboxRelayConfig) (s t : Table)
    → InOrder s
    → Reach redact config s t
    → (i j : ℕ) (e p : Row) → get_elem? t i ≡ some e
    → get_elem? t j ≡ some p
    → e.status ≡ OutboxStatus.published
    → same_aggregate p e ≡ true
    → p.aggregate_version < e.aggregate_version
    → is_unsettled p.status ≡ false
Reach-settled_before redact config s t start reached i j e p e_at p_at done aggregate earlier =
    let ordered = Reach-InOrder reached start in
    ordered.settled_before i j e p e_at p_at (ordered.published_started i e e_at done) aggregate
      earlier
