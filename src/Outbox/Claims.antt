-- ===== src/Outbox/Claims.antt =====
-- What a claim does to the table, row by row.
use atlas_erpbackend.Prelude.{
  ℕ, ◌+◌, ◌≡◌, ◌≤◌, ◌<◌, sym, ap, ◌∙◌, Bool, true, false, not, ◌&&◌, some, List, arith, ltb, ◌==◌,
  any, keep, get_elem?, Bool-cases, inl, inr, ltb→lt, ==_iff, ◌⊎◌, subst,
}
use atlas_erpbackend.Text.{text_eq_refl}
use atlas_erpbackend.Outbox.Rows.{Row, Table, same_aggregate, is_pending, is_unsettled}
use atlas_erpbackend.Outbox.Relay.{
  OutboxRelayConfig, eligible, blocks, turn_before, sort_by, candidates, chosen, lease_to,
  claim_row, claim_batch,
}
use atlas_erpbackend.Outbox.Tables.{
  DistinctIds, get_elem?-map, get_elem?-map_at, not_any, any-witness, any-take, any-keep,
  any-sort_by,
}

and_left : (a b : Bool) → (a && b) ≡ true → a ≡ true
and_left a b h = ground arith

-- A candidate's id is the id of a row that is eligible and not locked.
candidates_sound :
    (locked : Row → Bool) (now limit : ℕ) (table : Table) (p : Row → Bool)
    → any p (candidates locked now limit table) ≡ true
    → any (λ e. (eligible now table e && not (locked e)) && p e) table ≡ true
unfolding candidates
candidates_sound locked now limit table p h =
    let open_rows = keep (λ e. eligible now table e && not (locked e)) table in
    sym (any-keep p (λ e. eligible now table e && not (locked e)) table)
    ∙ sym (any-sort_by p turn_before open_rows)
    ∙ any-take p limit (sort_by turn_before open_rows) h

-- A claimed row was pending, due, free of a live lease, the head of its aggregate, and not locked.
pub record IsClaimed (worker now lease_ms : ℕ) (locked : Row → Bool) (table : Table) (e e' : Row)
    : Type 0 where
  pub claimable : eligible now table e ≡ true
  pub unlocked : locked e ≡ false
  pub leased : e' ≡ lease_to worker now lease_ms e

module _ (config : OutboxRelayConfig) (worker : ℕ) (locked : Row → Bool) (now : ℕ) (table : Table)
    (distinct : DistinctIds table) where
  chosen-eligible :
      (i : ℕ) (e : Row)
      → get_elem? table i ≡ some e
      → chosen (candidates locked now config.batch_size table) e ≡ true
      → (eligible now table e && not (locked e)) ≡ true
  chosen-eligible i e at h =
      let (j, d, there, both) =
        any-witness (λ c. (eligible now table c && not (locked c)) && c.id == e.id) table
          (candidates_sound locked now config.batch_size table (λ c. c.id == e.id) h) in
      let same_id : d.id ≡ e.id = ground arith in
      let same : d ≡ e = distinct j i d e there at same_id in
      subst (λ r. (eligible now table r && not (locked r)) ≡ true) same (ground arith)

  -- A claim leaves a row as it is, or leases it to the worker; only rows that may be claimed.
  pub claim_batch-IsClaimed :
      (i : ℕ) (e : Row)
      → get_elem? table i ≡ some e
      → (e' : Row) × (get_elem? (claim_batch config worker locked now table).0 i ≡ some e')
        × ((e' ≡ e) ⊎ IsClaimed worker now config.lease_ms locked table e e')
  unfolding claim_batch
  claim_batch-IsClaimed i e at =
      let picked = candidates locked now config.batch_size table in
      let change = claim_row picked worker now config.lease_ms in
      let moved : (change e ≡ e) ⊎ IsClaimed worker now config.lease_ms locked table e (change e) =
        elim (Bool-cases (chosen picked e)) [
          | inr left ↦ inl (rw left)
          | inl taken ↦
              let both = chosen-eligible i e at taken in
              inr (record {
                claimable = and_left _ _ both;
                unlocked = ground arith;
                leased = rw taken;
              })
        ] in
      (change e, get_elem?-map_at change table i at, moved)

claimed_from :
    (config : OutboxRelayConfig) (worker : ℕ) (locked : Row → Bool) (now : ℕ) (table : Table)
    (i : ℕ) (e' : Row)
    → get_elem? (claim_batch config worker locked now table).0 i ≡ some e'
    → (e : Row) × (get_elem? table i ≡ some e)
unfolding claim_batch
claimed_from config worker locked now table i e' at =
    let picked = candidates locked now config.batch_size table in
    let (e, e_at, made) = get_elem?-map (claim_row picked worker now config.lease_ms) table i at in
    (e, e_at)

-- The same, from the table after the claim.
pub claim_batch-origin :
    (config : OutboxRelayConfig) (worker : ℕ) (locked : Row → Bool) (now : ℕ) (table : Table)
    → DistinctIds table
    → (i : ℕ) (e' : Row) → get_elem? (claim_batch config worker locked now table).0 i ≡ some e'
    → (e : Row) × (get_elem? table i ≡ some e)
      × ((e' ≡ e) ⊎ IsClaimed worker now config.lease_ms locked table e e')
claim_batch-origin config worker locked now table distinct i e' at =
    let (e, e_at) = claimed_from config worker locked now table i e' at in
    let (d, d_at, moved) = claim_batch-IsClaimed config worker locked now table distinct i e e_at in
    let same : d ≡ e' = cc in
    (
      e,
      e_at,
      subst (λ r. (r ≡ e) ⊎ IsClaimed worker now config.lease_ms locked table e r) same moved,
    )

claim_row-id :
    (picked : List Row) (worker now lease_ms : ℕ) (e : Row)
    → (claim_row picked worker now lease_ms e).id ≡ e.id
claim_row-id picked worker now lease_ms e = elim (Bool-cases (chosen picked e)) [
  | inl taken ↦ rw taken
  | inr left ↦ rw left
]

pub claim_batch-DistinctIds :
    (config : OutboxRelayConfig) (worker : ℕ) (locked : Row → Bool) (now : ℕ) (table : Table)
    → DistinctIds table
    → DistinctIds (claim_batch config worker locked now table).0
unfolding claim_batch
claim_batch-DistinctIds config worker locked now table distinct i j a b at there same =
    let picked = candidates locked now config.batch_size table in
    let change = claim_row picked worker now config.lease_ms in
    let (c, c_at, c_new) = get_elem?-map change table i at in
    let (d, d_at, d_new) = get_elem?-map change table j there in
    let kept = claim_row-id picked worker now config.lease_ms in
    let ids : c.id ≡ d.id =
      sym (kept c) ∙ ap (λ r. r.id) (sym c_new) ∙ same ∙ ap (λ r. r.id) d_new ∙ kept d in
    c_new ∙ ap change (distinct i j c d c_at d_at ids) ∙ sym d_new

module _ (config : OutboxRelayConfig) (worker : ℕ) (locked : Row → Bool) (now : ℕ) (table : Table)
    (distinct : DistinctIds table) where
  -- In a table whose ids are distinct, a row that a claim leased stays as it is under any later claim,
  -- by the same worker or another, while the lease lives.
  pub claim_batch-exclusive :
      (i : ℕ) (e e' : Row) (config' : OutboxRelayConfig) (worker' : ℕ) (locked' : Row → Bool)
      (later : ℕ)
      → let table' = (claim_batch config worker locked now table).0 in
        get_elem? table' i ≡ some e'
        → IsClaimed worker now config.lease_ms locked table e e'
        → later ≤ now + config.lease_ms
        → get_elem? (claim_batch config' worker' locked' later table').0 i ≡ some e'
  claim_batch-exclusive i e e' config' worker' locked' later at claimed alive =
      let table' = (claim_batch config worker locked now table).0 in
      let (e'', at', moved) =
        claim_batch-IsClaimed config' worker' locked' later table'
          (claim_batch-DistinctIds config worker locked now table distinct) i e' at in
      elim moved [
        | inl same ↦ at' ∙ ap some same
        | inr again ↦ absurd (held_lease e e' later claimed.leased again.claimable alive)
      ]
    where
      held_lease :
          (d d' : Row) (at_time : ℕ)
          → d' ≡ lease_to worker now config.lease_ms d
          → eligible at_time (claim_batch config worker locked now table).0 d' ≡ true
          → at_time ≤ now + config.lease_ms
          → ⊥
      held_lease d d' at_time leased free alive =
          let still : ltb (now + config.lease_ms) at_time ≡ true =
            ground (arith, ap (λ r. r.lease_expires_at) leased) in
          omega (arith, ltb→lt _ _ still)

same_aggregate_of :
    (a b : Row)
    → a.aggregate_type ≡ b.aggregate_type
    → a.aggregate_id ≡ b.aggregate_id
    → same_aggregate a b ≡ true
same_aggregate_of a b types ids =
    rw (types, text_eq_refl b.aggregate_type) ((==_iff a.aggregate_id b.aggregate_id).1 ids)

pub eligible_pending :
    (now : ℕ) (table : Table) (e : Row) → eligible now table e ≡ true → is_pending e.status ≡ true
eligible_pending now table e h = ground arith

-- An eligible row has no pending row of its aggregate before it.
eligible_first :
    (now : ℕ) (table : Table) (a b : Row) (j : ℕ)
    → eligible now table a ≡ true
    → get_elem? table j ≡ some b
    → is_pending b.status ≡ true
    → same_aggregate b a ≡ true
    → a.aggregate_version ≤ b.aggregate_version
eligible_first now table a b j free at waiting same =
    let none_before : any (blocks a) table ≡ false = ground arith in
    let not_before = not_any (blocks a) table j none_before at in ground arith

-- Every earlier event of its aggregate is settled.
pub eligible_settled :
    (now : ℕ) (table : Table) (e p : Row) (j : ℕ)
    → eligible now table e ≡ true
    → get_elem? table j ≡ some p
    → same_aggregate p e ≡ true
    → p.aggregate_version < e.aggregate_version
    → is_unsettled p.status ≡ false
eligible_settled now table e p j free at same earlier =
    let none_before : any (blocks e) table ≡ false = ground arith in
    let not_before = not_any (blocks e) table j none_before at in ground arith

-- Of one aggregate a claim takes a single version.
pub IsClaimed-single :
    (worker now lease_ms : ℕ) (locked : Row → Bool) (table : Table) (i j : ℕ) (a b a' b' : Row)
    → get_elem? table i ≡ some a
    → get_elem? table j ≡ some b
    → IsClaimed worker now lease_ms locked table a a'
    → IsClaimed worker now lease_ms locked table b b'
    → a.aggregate_type ≡ b.aggregate_type
    → a.aggregate_id ≡ b.aggregate_id
    → a.aggregate_version ≡ b.aggregate_version
IsClaimed-single worker now lease_ms locked table i j a b a' b' a_at b_at a_claimed b_claimed types
      ids =
    omega (
      arith,
      eligible_first now table a b j a_claimed.claimable b_at
          (eligible_pending now table b b_claimed.claimable)
          (same_aggregate_of b a (sym types) (sym ids)),
      eligible_first now table b a i b_claimed.claimable a_at
          (eligible_pending now table a a_claimed.claimable) (same_aggregate_of a b types ids),
    )
