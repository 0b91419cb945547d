-- ===== src/Inbox/Latest.antt =====
-- consumeOnce under `latest-state`, over a sequence of deliveries.
use atlas_erpbackend.Prelude.{
  ℕ, ◌≡◌, refl, sym, ap, ◌∙◌, subst, Bool, true, false, ◌&&◌, Option, none, some, List, [], ◌∷◌,
  ◌++◌, append-nil, any, arith, Bool-cases, inl, inr, if◌then◌else◌, Result, ok, err,
}
use atlas_erpbackend.Text.{Text, text_eq, text_eq_sound, text_eq_refl}
use atlas_erpbackend.Inbox.{
  Aggregate, InboxEvent, AggregateRow, Inbox, row_applied, row_stale, duplicate, applied, stale,
  Advance, advanced, behind, latest_state, is_row_of, new_row, advance, apply_effect, apply_ordered,
  lacks_version, version_required, effect_failed, consume_once, committed, consume_all,
}
use atlas_erpbackend.Inbox.Versions.{
  version_of, applied_versions, last_of, Tracks, IsTracked, IsNewer, snoc-Tracks,
  applied_versions-append,
}
use atlas_erpbackend.Inbox.Upsert.{WasNewer, advance-WasNewer, Keeps, advance-Keeps}

module _ {E S T : Type 0} (effect : InboxEvent → S → Result E (S × T)) (consumer : Text)
    (event : InboxEvent) (inbox : Inbox S) where
  abbrev stale_inbox : Inbox S
  stale_inbox = record inbox { rows = inbox.rows ++ (new_row consumer event row_stale ∷ []) }

  stale-IsTracked : IsTracked consumer inbox → IsTracked consumer stale_inbox
  stale-IsTracked h type id =
      subst (λ vs. Tracks vs (last_of consumer type id inbox.aggregates))
        (sym (
          applied_versions-append consumer type id inbox.rows (new_row consumer event row_stale)
          ∙ append-nil _))
        (h type id)

  applied-IsTracked :
      (a : Aggregate) (rows : List AggregateRow) (state : S)
      → event.aggregate ≡ some a
      → advance consumer a inbox.aggregates ≡ advanced rows
      → IsTracked consumer inbox
      → IsTracked consumer (record {
        rows = inbox.rows ++ (new_row consumer event row_applied ∷ []);
        aggregates = rows;
        state = state;
      })
  applied-IsTracked a rows state e moved h type id =
      elim (Bool-cases (text_eq a.type type && text_eq a.id id)) [
        | inl same ↦
            let (types, ids) = both same in
            let (last, newer) =
              subst (WasNewer consumer a inbox.aggregates) moved
                (advance-WasNewer consumer a inbox.aggregates) in
            let newer_here =
              at (λ t i. IsNewer a.version (last_of consumer t i inbox.aggregates)) types ids
                newer in
            let last_here = at (λ t i. last_of consumer t i rows ≡ some a.version) types ids last in
            subst (λ vs. Tracks vs (last_of consumer type id rows)) (sym (with_version same))
              (subst (λ o. Tracks (before ++ (a.version ∷ [])) o) (sym last_here)
                (snoc-Tracks before (last_of consumer type id inbox.aggregates) a.version
                  (h type id) newer_here))
        | inr other ↦
            subst (λ vs. Tracks vs (last_of consumer type id rows)) (sym (without other))
              (subst (λ o. Tracks before o)
                (sym (
                  subst (Keeps consumer a type id other inbox.aggregates) moved
                    (advance-Keeps consumer a type id other inbox.aggregates)))
                (h type id))
      ]
    where
      before : List ℕ
      before = applied_versions consumer type id inbox.rows

      at : (P : Text → Text → Type 0) → a.type ≡ type → a.id ≡ id → P a.type a.id → P type id
      at P types ids p = subst (λ i. P type i) ids (subst (λ t. P t a.id) types p)

      both : (text_eq a.type type && text_eq a.id id) ≡ true → (a.type ≡ type) × (a.id ≡ id)
      both same = (text_eq_sound a.type type (ground arith), text_eq_sound a.id id (ground arith))

      with_version :
          (text_eq a.type type && text_eq a.id id) ≡ true
          → applied_versions consumer type id
              (inbox.rows ++ (new_row consumer event row_applied ∷ []))
            ≡ before ++ (a.version ∷ [])
      with_version same =
          applied_versions-append consumer type id inbox.rows (new_row consumer event row_applied)
          ∙ ap (λ o. before ++ version_of consumer type id row_applied consumer o) e
          ∙ rw (text_eq_refl consumer, same) refl

      without :
          (text_eq a.type type && text_eq a.id id) ≡ false
          → applied_versions consumer type id
              (inbox.rows ++ (new_row consumer event row_applied ∷ []))
            ≡ before
      without other =
          applied_versions-append consumer type id inbox.rows (new_row consumer event row_applied)
          ∙ ap (λ o. before ++ version_of consumer type id row_applied consumer o) e
          ∙ rw (text_eq_refl consumer, other) (append-nil before)

module _ {E S T : Type 0} (effect : InboxEvent → S → Result E (S × T)) (consumer : Text) where
  of_effect :
      (event : InboxEvent) (inbox : Inbox S) (a : Aggregate) (rows : List AggregateRow)
      → event.aggregate ≡ some a
      → advance consumer a inbox.aggregates ≡ advanced rows
      → IsTracked consumer inbox
      → (r : Result E (S × T))
      → IsTracked consumer (
          committed effect inbox (elim r [
            | err e ↦ err (effect_failed e)
            | ok (after, value) ↦ ok (
              record {
                rows = inbox.rows ++ (new_row consumer event row_applied ∷ []);
                aggregates = rows;
                state = after;
              },
              applied value,
            )
          ]))
  of_effect event inbox a rows e moved h (err _) = h
  of_effect event inbox a rows e moved h (ok (after, value)) =
      applied-IsTracked effect consumer event inbox a rows after e moved h

  of_advance :
      (event : InboxEvent) (inbox : Inbox S) (a : Aggregate)
      → event.aggregate ≡ some a
      → IsTracked consumer inbox
      → (r : Advance) → advance consumer a inbox.aggregates ≡ r
      → IsTracked consumer (
          committed effect inbox (elim r [
            | advanced rows ↦
                apply_effect effect event
                  (inbox.rows ++ (new_row consumer event row_applied ∷ []))
                  rows
                  inbox.state
            | behind last ↦ ok (
              record inbox { rows = inbox.rows ++ (new_row consumer event row_stale ∷ []) },
              stale last,
            )
          ]))
  of_advance event inbox a e h (advanced rows) moved =
      of_effect event inbox a rows e moved h (effect event inbox.state)
  of_advance event inbox a e h (behind n) moved = stale-IsTracked effect consumer event inbox h

  of_aggregate :
      (event : InboxEvent) (inbox : Inbox S) (o : Option Aggregate) (there : Bool)
      → event.aggregate ≡ o
      → IsTracked consumer inbox
      → IsTracked consumer (
          committed effect inbox (
            if lacks_version effect latest_state o
            then err version_required
            else if there
            then ok (inbox, duplicate)
            else apply_ordered effect consumer latest_state event o inbox))
  of_aggregate event inbox none there e h = h
  of_aggregate event inbox (some a) true e h = h
  of_aggregate event inbox (some a) false e h =
      of_advance event inbox a e h (advance consumer a inbox.aggregates) refl

  consume_once-IsTracked :
      (event : InboxEvent) (inbox : Inbox S)
      → IsTracked consumer inbox
      → IsTracked consumer
          (committed effect inbox (consume_once effect consumer latest_state event inbox))
  unfolding consume_once
  consume_once-IsTracked event inbox h =
      of_aggregate event inbox event.aggregate (any (is_row_of consumer event.event_key) inbox.rows)
        refl h

  -- Any sequence of deliveries under latest-state, with an effect that can fail, keeps this: for each
  -- aggregate, the versions the consumer has applied, in the order of the rows, go up strictly, and none
  -- of them is above the version the table of aggregates has, or none is applied where the table has no
  -- version.
  pub consume_all-IsTracked :
      (events : List InboxEvent) (inbox : Inbox S)
      → IsTracked consumer inbox
      → IsTracked consumer (consume_all effect consumer latest_state events inbox)
  unfolding consume_all
  consume_all-IsTracked [] inbox h = h
  consume_all-IsTracked (event ∷ events) inbox h =
      consume_all-IsTracked events _ (consume_once-IsTracked event inbox h)
