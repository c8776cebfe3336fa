-- ===== src/Tests/Caches.antt =====
-- The dictionary and the trigger events at concrete inputs.
use gradido_node.Prelude.{
  throw, out_of_range, ◌⊎◌, ◌<◌, ℕ, ◌≡◌, refl, List, [], ◌∷◌, length, ok, arith, Option, none, some,
  ◌==◌, if◌then◌else◌, true,
}
use gradido_node.OrderedMap.{find}
use gradido_node.OrderedMap.Multi.{FromMulti, AreKeyed, Inserted}
use gradido_node.Dictionary.{Store, Dictionary, get_or_add_index_for_string, get_index_for_string}
use gradido_node.Dictionary.Laws.{IsStore}
use gradido_node.Dictionary.Indices.{
  IsValid, IsAddedOrFails, get_or_add_index_for_string-IsAdded, get_or_add_index_for_string_stable,
  get_or_add_index_for_string_colliding,
}
use gradido_node.TriggerEvents.{
  Event, TriggerEvents, add_transaction_trigger_event, remove_transaction_trigger_event,
  find_transaction_trigger_events_in_range, find_next_transaction_trigger_event_in_range,
}
use gradido_node.TriggerEvents.Ranges.{
  events_between, head, find_in_range-reference, add_remove-FromMulti, IsRemoved,
}

abbrev pub Pairs : Type 0
Pairs = List (ℕ × List ℕ)

abbrev get : Pairs → ℕ → Option (List ℕ)
get [] k = none
get ((j, v) ∷ l) k = if j == k then some v else get l k

-- A store that keeps what was set last in front.
abbrev pub db : Store Pairs
db = record { get = get; set = λ s k v. (true, (k, v) ∷ s); cleared = λ s. [] }

db-IsStore : IsStore db
db-IsStore = record {
  get-set = λ s k v put. ground arith;
  get-set_other = λ s k j v put ne. ground arith;
  get-cleared = λ s k. refl;
}

-- One string of two bytes, whose octet is its length.
abbrev pub dictionary : Dictionary Pairs
dictionary = record { last_index = 1; file = (1, 5 ∷ 6 ∷ []) ∷ []; reverse_lookup = (2, 1) ∷ [] }

dictionary-IsValid : IsValid db length dictionary
unfolding find
dictionary-IsValid = record {
  is_sorted = (omega arith, tt);
  is_backed = λ o i h. (ground arith, ground arith, 5 ∷ 6 ∷ [], ground arith, ground arith);
}

get_or_add_index_for_string-IsAdded_example :
    IsAddedOrFails db length db-IsStore
      (9 ∷ [])
      dictionary
      (get_or_add_index_for_string db length (9 ∷ []) dictionary)
get_or_add_index_for_string-IsAdded_example =
    get_or_add_index_for_string-IsAdded db length db-IsStore 9 [] dictionary dictionary-IsValid
      (omega arith)

-- The only string of the file has another octet.
only : (i : ℕ) (t : List ℕ) → get dictionary.file i ≡ some t → length t ≡ 1 → t ≡ 9 ∷ []
only i t e h = ground arith

get_or_add_index_for_string_stable_example :
    (i : ℕ) × (d' : Dictionary Pairs) × (get_or_add_index_for_string db length (9 ∷ []) dictionary
      ≡ (ok i, d'))
    × (get_index_for_string db length (9 ∷ []) d' ≡ ok i)
    × (get_or_add_index_for_string db length (9 ∷ []) d' ≡ (ok i, d'))
get_or_add_index_for_string_stable_example =
    get_or_add_index_for_string_stable db length db-IsStore 9 [] dictionary dictionary-IsValid only
      (omega arith) refl

get_or_add_index_for_string_colliding_example :
    (d' d'' : Dictionary Pairs) × (get_or_add_index_for_string db length (9 ∷ 9 ∷ []) dictionary
      ≡ (ok 2, d'))
    × (get_or_add_index_for_string db length (9 ∷ 9 ∷ []) d' ≡ (ok 3, d''))
unfolding find
get_or_add_index_for_string_colliding_example =
    get_or_add_index_for_string_colliding db length db-IsStore 9 (9 ∷ []) (5 ∷ 6 ∷ []) dictionary 1
      dictionary-IsValid (omega arith) refl refl (λ h. ground arith) refl refl

abbrev event : ℕ → Event
event date = record { target_date = date; linked_transaction_id = date; kind = 1 }

abbrev events : TriggerEvents
events = record {
  events = (10, event 10) ∷ (20, event 20) ∷ (20, event 20) ∷ (30, event 30) ∷ [];
  states = [];
}

find_in_range-reference_example :
    ((find_transaction_trigger_events_in_range 15 25 events
        ≡ ok (events_between 15 25 events.events))
      ⊎ ((25 < 15) × (find_transaction_trigger_events_in_range 15 25 events ≡ throw out_of_range)))
    × (find_next_transaction_trigger_event_in_range 15 25 events
        ≡ head (events_between 15 25 events.events))
find_in_range-reference_example =
    find_in_range-reference 15 25 events
      (omega arith, (omega arith, (omega arith, (omega arith, tt))))

add_remove-FromMulti_example :
    (FromMulti 0 (add_transaction_trigger_event (event 12) events).events
      × AreKeyed
          (λ (x : Event). x.target_date)
          (add_transaction_trigger_event (event 12) events).events
      × Inserted 12
          (event 12)
          events.events
          (add_transaction_trigger_event (event 12) events).events)
    × (FromMulti 0 (remove_transaction_trigger_event (λ a b. true) (event 12) events).events
        × AreKeyed
            (λ (x : Event). x.target_date)
            (remove_transaction_trigger_event (λ a b. true) (event 12) events).events
        × IsRemoved
            (λ a b. true)
            (event 12)
            events.events
            (remove_transaction_trigger_event (λ a b. true) (event 12) events).events)
add_remove-FromMulti_example =
    add_remove-FromMulti (λ a b. true) (event 12) events
      (omega arith, (omega arith, (omega arith, (omega arith, tt))))
      (refl, (refl, (refl, (refl, tt))))
