-- ===== src/Tests/Inbox.antt =====
-- Four deliveries, the first event twice, with effects that keep a list of the keys seen.
use atlas_erpbackend.Prelude.{ℕ, ◌≡◌, refl, some, List, [], ◌∷◌, ◌++◌}
use atlas_erpbackend.Text.{Text, codes}
use atlas_erpbackend.Inbox.{InboxEvent, Inbox, every_event, latest_state, consume_once, consume_all}
use atlas_erpbackend.Inbox.Once.{effect, act_all, first_of_each, consume_all-first_of_each}
use atlas_erpbackend.Inbox.Versions.{IsTracked}
use atlas_erpbackend.Inbox.Latest.{consume_all-IsTracked}

abbrev event_of : ℕ → ℕ → InboxEvent
event_of key version = record {
  event_key = key ∷ [];
  topic = codes "credit";
  schema_version = some 1;
  aggregate = some (record { type = codes "B"; id = codes "7"; version = version });
}

abbrev deliveries : List InboxEvent
deliveries = event_of 1 2 ∷ event_of 2 5 ∷ event_of 1 2 ∷ event_of 3 4 ∷ []

abbrev empty_inbox : Inbox (List Text)
empty_inbox = record { rows = []; aggregates = []; state = [] }

abbrev note_key : InboxEvent → List Text → List Text
note_key event keys = keys ++ (event.event_key ∷ [])

abbrev new_state : InboxEvent → List Text → List Text
new_state event keys = keys

-- Three of the four deliveries have an effect.
keys_once :
    (consume_all
      (effect Text note_key new_state)
      (codes "c")
      every_event
      deliveries
      empty_inbox).state
    ≡ (1 ∷ []) ∷ (2 ∷ []) ∷ (3 ∷ []) ∷ []
unfolding consume_all consume_once
keys_once = refl

consume_all-first_of_each_example :
    (consume_all
      (effect Text note_key new_state)
      (codes "c")
      every_event
      deliveries
      empty_inbox).state
    ≡ act_all note_key (first_of_each deliveries) []
consume_all-first_of_each_example =
    consume_all-first_of_each Text note_key new_state (codes "c") deliveries empty_inbox refl

consume_all-IsTracked_example :
    IsTracked
      (codes "c")
      (consume_all (effect Text note_key new_state) (codes "c") latest_state deliveries empty_inbox)
consume_all-IsTracked_example =
    consume_all-IsTracked (effect Text note_key new_state) (codes "c") deliveries empty_inbox
      (λ type id. refl)
