-- ===== src/Inbox/Once.antt =====
-- consumeOnce under `every-event`, over a sequence of deliveries.
use atlas_erpbackend.Prelude.{
  ◌≡◌, refl, sym, ap, ◌∙◌, subst, Bool, true, false, not, ◌&&◌, ◌||◌, List, [], ◌∷◌, ◌++◌, foldl,
  any, keep, arith, Bool-cases, inl, inr, if◌then◌else◌, Result, ok, any-append,
}
use atlas_erpbackend.Text.{Text, text_eq, text_eq_sound, text_eq_refl}
use atlas_erpbackend.Inbox.{
  InboxEvent, InboxRow, Inbox, duplicate, applied, every_event, is_row_of, new_row, row_applied,
  consume_once, consume_all, committed, InboxError, InboxResult,
}

-- The deliveries without those of a key.
abbrev pub drop_key : Text → List InboxEvent → List InboxEvent
drop_key key events = keep (λ d. not (text_eq d.event_key key)) events

-- The first delivery of each key, in the order of arrival.
abbrev pub first_of_each : List InboxEvent → List InboxEvent
first_of_each [] = []
first_of_each (event ∷ events) = event ∷ drop_key event.event_key (first_of_each events)

-- The effects of a list of deliveries, each applied once.
abbrev pub act_all : {S : Type 0} → (InboxEvent → S → S) → List InboxEvent → S → S
act_all act events state = foldl (λ s e. act e s) state events

module _ (consumer : Text) where
  abbrev seen : List InboxRow → InboxEvent → Bool
  seen rows d = any (is_row_of consumer d.event_key) rows

  abbrev unseen : List InboxRow → List InboxEvent → List InboxEvent
  unseen rows events = keep (λ d. not (seen rows d)) events

  -- A key with a row is not looked for again.
  unseen-drop_seen :
      (rows : List InboxRow) (event : InboxEvent) (events : List InboxEvent)
      → seen rows event ≡ true
      → unseen rows (drop_key event.event_key events) ≡ unseen rows events
  unseen-drop_seen rows event [] h = refl
  unseen-drop_seen rows event (d ∷ events) h =
      elim (Bool-cases (text_eq d.event_key event.event_key)) [
        | inl e ↦
            let same = text_eq_sound d.event_key event.event_key e in
            let d_seen = subst (λ k. any (is_row_of consumer k) rows ≡ true) (sym same) h in
            rw (e, d_seen) (unseen-drop_seen rows event events h)
        | inr e ↦ rw e (
            ap (λ l. if not (seen rows d) then d ∷ l else l) (unseen-drop_seen rows event events h))
      ]

  text_eq_comm : (s t : Text) → text_eq s t ≡ text_eq t s
  text_eq_comm [] [] = refl
  text_eq_comm [] (d ∷ t) = refl
  text_eq_comm (c ∷ s) [] = refl
  text_eq_comm (c ∷ s) (d ∷ t) = ground (arith, text_eq_comm s t)

  seen-new_row :
      (rows : List InboxRow) (event d : InboxEvent)
      → seen (rows ++ (new_row consumer event row_applied ∷ [])) d
        ≡ (seen rows d || text_eq d.event_key event.event_key)
  seen-new_row rows event d =
      any-append (is_row_of consumer d.event_key) rows (new_row consumer event row_applied ∷ [])
      ∙ ap (λ b. seen rows d || b)
          (last_row (text_eq event.event_key d.event_key) (text_eq_refl consumer))
      ∙ ap (λ b. seen rows d || b) (text_eq_comm event.event_key d.event_key)
    where
      last_row : {c : Bool} (b : Bool) → c ≡ true → (c && b || false) ≡ b
      last_row b e = ground arith

  unseen-new_row :
      (rows : List InboxRow) (event : InboxEvent) (events : List InboxEvent)
      → unseen (rows ++ (new_row consumer event row_applied ∷ [])) events
        ≡ unseen rows (drop_key event.event_key events)
  unseen-new_row rows event [] = refl
  unseen-new_row rows event (d ∷ events) =
      let rest = unseen-new_row rows event events in
      elim (Bool-cases (text_eq d.event_key event.event_key)) [
        | inl e ↦ rw (seen-new_row rows event d, e, or_true (seen rows d)) rest
        | inr e ↦
            rw (seen-new_row rows event d, e, or_false (seen rows d))
              (ap (λ l. if not (seen rows d) then d ∷ l else l) rest)
      ]
    where
      or_true : (b : Bool) → (b || true) ≡ true
      or_true b = ground arith

      or_false : (b : Bool) → (b || false) ≡ b
      or_false b = ground arith

module _ (E : Type 0) {S T : Type 0} (act : InboxEvent → S → S) (value : InboxEvent → S → T) where
  -- An effect that does not fail.
  abbrev pub effect : InboxEvent → S → Result E (S × T)
  effect event state = ok (act event state, value event state)

  module _ (consumer : Text) (event : InboxEvent) (inbox : Inbox S) where
    -- The inbox after an application.
    abbrev with_event : Inbox S
    with_event = record {
      rows = inbox.rows ++ (new_row consumer event row_applied ∷ []);
      aggregates = inbox.aggregates;
      state = act event inbox.state;
    }

    consume_once-seen :
        seen consumer inbox.rows event ≡ true
        → consume_once effect consumer every_event event inbox ≡ ok (inbox, duplicate)
    unfolding consume_once
    consume_once-seen h = rw h refl

    consume_once-unseen :
        seen consumer inbox.rows event ≡ false
        → consume_once effect consumer every_event event inbox
          ≡ ok (with_event, applied (value event inbox.state))
    unfolding consume_once
    consume_once-unseen h = rw h refl

  module _ (consumer : Text) where
    consume_all-unseen :
        (events : List InboxEvent) (inbox : Inbox S)
        → (consume_all effect consumer every_event events inbox).state
          ≡ act_all act (unseen consumer inbox.rows (first_of_each events)) inbox.state
    unfolding consume_all
    consume_all-unseen [] inbox = refl
    consume_all-unseen (event ∷ events) inbox =
        let later = first_of_each events in
        elim (Bool-cases (seen consumer inbox.rows event)) [
          | inl e ↦
              ap after (consume_once-seen consumer event inbox e)
              ∙ consume_all-unseen events inbox
              ∙ ap (λ l. act_all act l inbox.state)
                  (sym (unseen-drop_seen consumer inbox.rows event later e) ∙ sym (unseen-seen e))
          | inr e ↦
              ap after (consume_once-unseen consumer event inbox e)
              ∙ consume_all-unseen events (with_event consumer event inbox)
              ∙ ap (λ l. act_all act l (act event inbox.state))
                  (unseen-new_row consumer inbox.rows event later)
              ∙ ap (λ l. act_all act l inbox.state) (sym (unseen-first e))
        ]
      where
        after : Result (InboxError E) (Inbox S × InboxResult T) → S
        after r = (consume_all effect consumer every_event events (committed effect inbox r)).state

        unseen-seen :
            seen consumer inbox.rows event ≡ true
            → unseen consumer inbox.rows (event ∷ drop_key event.event_key (first_of_each events))
              ≡ unseen consumer inbox.rows (drop_key event.event_key (first_of_each events))
        unseen-seen h = rw h refl

        unseen-first :
            seen consumer inbox.rows event ≡ false
            → unseen consumer inbox.rows (event ∷ drop_key event.event_key (first_of_each events))
              ≡ event ∷ unseen consumer inbox.rows (drop_key event.event_key (first_of_each events))
        unseen-first h = rw h refl

    -- From an inbox that has recorded no event, any sequence of deliveries under every-event, whatever
    -- it repeats and in whatever order it arrives, leaves the state that the effects of the first
    -- delivery of each key leave, applied once each in the order of arrival, for an effect that does not
    -- fail.
    pub consume_all-first_of_each :
        (events : List InboxEvent) (inbox : Inbox S)
        → inbox.rows ≡ []
        → (consume_all effect consumer every_event events inbox).state
          ≡ act_all act (first_of_each events) inbox.state
    consume_all-first_of_each events inbox h =
        consume_all-unseen events inbox
        ∙ ap (λ rows. act_all act (unseen consumer rows (first_of_each events)) inbox.state) h
        ∙ ap (λ l. act_all act l inbox.state) (unseen-none (first_of_each events))
      where
        unseen-none : (l : List InboxEvent) → unseen consumer [] l ≡ l
        unseen-none [] = refl
        unseen-none (d ∷ l) = ap (λ t. d ∷ t) (unseen-none l)
