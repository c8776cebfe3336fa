-- ===== src/TriggerEvents.antt =====
-- src/cache/TransactionTriggerEvent.{h,cpp}: the events that the node waits for, by their target date,
-- in nanoseconds. The state in the level db is kept as what was last written under a key, without
-- the text that the events are encoded in.
pub mod Ranges
use gradido_node.Prelude.{
  ℕ, ◌/◌, ◌^◌, Bool, true, false, ◌&&◌, ◌||◌, List, [], ◌∷◌, Option, none, some, ltb, leb, ◌==◌,
  if◌then◌else◌, Outcome, ok, throw, out_of_range,
}
use gradido_node.OrderedMap.{Map, assign, erase}
use gradido_node.OrderedMap.Multi.{insert_multi}

pub record Event : Type 0 where
  pub target_date : ℕ
  pub linked_transaction_id : ℕ
  pub kind : ℕ

pub record TriggerEvents : Type 0 where
  pub events : Map Event
  pub states : Map (List Event)

-- `getSeconds`, the key of the state.
abbrev pub seconds : ℕ → ℕ
seconds date = date / 10 ^ 9

unfoldable pub equal_range : ℕ → Map Event → List Event
equal_range date [] = []
equal_range date ((d, e) ∷ m) = if d == date then e ∷ equal_range date m else equal_range date m

unfoldable pub written_range : ℕ → List Event → Map (List Event) → Map (List Event)
written_range date [] states = erase (seconds date) states
written_range date (e ∷ es) states = assign (seconds date) (e ∷ es) states

unfoldable pub update_state : ℕ → TriggerEvents → TriggerEvents
update_state date t = record t { states = written_range date (equal_range date t.events) t.states }

unfoldable pub add_transaction_trigger_event : Event → TriggerEvents → TriggerEvents
add_transaction_trigger_event e t =
    update_state e.target_date (record t { events = insert_multi e.target_date e t.events })

-- An event of the date that `isTheSame` is there.
unfoldable pub has_same : (Event → Event → Bool) → Event → Map Event → Bool
has_same is_the_same e [] = false
has_same is_the_same e ((d, x) ∷ m) =
    (d == e.target_date && is_the_same e x) || has_same is_the_same e m

-- `erase` of the first such event.
unfoldable pub erase_same : (Event → Event → Bool) → Event → Map Event → Map Event
erase_same is_the_same e [] = []
erase_same is_the_same e ((d, x) ∷ m) =
    let rest = erase_same is_the_same e m in
    if d == e.target_date && is_the_same e x then m else (d, x) ∷ rest

unfoldable pub remove_transaction_trigger_event :
    (Event → Event → Bool) → Event → TriggerEvents → TriggerEvents
remove_transaction_trigger_event is_the_same e t =
    if has_same is_the_same e t.events
    then update_state e.target_date (record t { events = erase_same is_the_same e t.events })
    else t

unfoldable pub lower_bound : ℕ → Map Event → Map Event
lower_bound date [] = []
lower_bound date ((d, e) ∷ m) = if ltb d date then lower_bound date m else (d, e) ∷ m

-- What stands before the upper bound.
unfoldable pub before_upper_bound : ℕ → Map Event → List Event
before_upper_bound date [] = []
before_upper_bound date ((d, e) ∷ m) =
    let rest = before_upper_bound date m in if leb d date then e ∷ rest else []

-- Whether the lower bound of the start stands behind the upper bound of the end.
unfoldable pub passes_end : ℕ → ℕ → Map Event → Bool
passes_end start end [] = false
passes_end start end ((d, e) ∷ m) = (ltb end d && ltb d start) || passes_end start end m

-- `findTransactionTriggerEventsInRange`. A loop that starts behind its end runs out of the map, which the
-- language leaves undefined and which throws here.
unfoldable pub find_transaction_trigger_events_in_range :
    ℕ → ℕ → TriggerEvents → Outcome (List Event)
find_transaction_trigger_events_in_range start end t =
    if passes_end start end t.events
    then throw out_of_range
    else ok (before_upper_bound end (lower_bound start t.events))

unfoldable pub first_until : ℕ → Map Event → Option Event
first_until end [] = none
first_until end ((d, e) ∷ m) = if leb d end then some e else none

unfoldable pub find_next_transaction_trigger_event_in_range : ℕ → ℕ → TriggerEvents → Option Event
find_next_transaction_trigger_event_in_range start end t =
    first_until end (lower_bound start t.events)
