-- ===== src/TriggerEvents/Ranges.antt =====
-- src/cache/TransactionTriggerEvent.cpp: the events of a range of dates.
use gradido_node.Prelude.{
  ℕ, ◌≤◌, ◌<◌, ◌≡◌, ◌⊎◌, inl, inr, true, false, ◌==◌, Bool-cases, ok, throw, out_of_range, refl, ap,
  ◌∙◌, Bool, ◌&&◌, List, [], ◌∷◌, Option, none, some, leb, if◌then◌else◌, arith,
}
use gradido_node.OrderedMap.{Map}
use gradido_node.OrderedMap.Multi.{
  FromMulti, insert_multi-FromMulti, FromMulti-weaken, AreKeyed, insert_multi-AreKeyed, Inserted,
  insert_multi-Inserted,
}
use gradido_node.TriggerEvents.{
  Event, TriggerEvents, update_state, add_transaction_trigger_event, has_same, erase_same,
  remove_transaction_trigger_event, passes_end, lower_bound, before_upper_bound,
  find_transaction_trigger_events_in_range, first_until,
  find_next_transaction_trigger_event_in_range,
}

-- All events of a range of dates, in their order.
abbrev pub events_between : ℕ → ℕ → Map Event → List Event
events_between start end [] = []
events_between start end ((d, e) ∷ m) =
    if leb start d && leb d end then e ∷ events_between start end m else events_between start end m

abbrev pub head : List Event → Option Event
head [] = none
head (e ∷ es) = some e

before_upper_bound-all :
    (start end b : ℕ) (m : Map Event)
    → start ≤ b
    → FromMulti b m
    → before_upper_bound end m ≡ events_between start end m
unfolding before_upper_bound
before_upper_bound-all start end b [] h f = refl
before_upper_bound-all start end b ((d, e) ∷ m) h (le, f) =
    ground (arith, before_upper_bound-all start end d m (omega arith) f, beyond start end d m f)
  where
    beyond :
        (start end d : ℕ) (m : Map Event)
        → FromMulti d m
        → end < d
        → events_between start end m ≡ []
    beyond start end d [] f h = refl
    beyond start end d ((j, e) ∷ m) (le, f) h = ground (arith, beyond start end j m f (omega arith))

in_range :
    (start end b : ℕ) (m : Map Event)
    → FromMulti b m
    → before_upper_bound end (lower_bound start m) ≡ events_between start end m
unfolding lower_bound
in_range start end b [] f = before_upper_bound-all start end start [] (omega arith) tt
in_range start end b ((d, e) ∷ m) (le, f) =
    ground (arith, in_range start end d m f, before_upper_bound-all start end start ((d, e) ∷ m))

first_until-head : (end : ℕ) (m : Map Event) → first_until end m ≡ head (before_upper_bound end m)
unfolding first_until before_upper_bound
first_until-head end [] = refl
first_until-head end ((d, e) ∷ m) = ground arith

passes_end-reversed : (start end : ℕ) (m : Map Event) → passes_end start end m ≡ true → end < start
unfolding passes_end
passes_end-reversed start end [] h = absurd (ground arith)
passes_end-reversed start end ((d, e) ∷ m) h = ground (arith, passes_end-reversed start end m)

-- While the events stand in the order of their dates, the search by range gives all events of the
-- range and no other, unless the range ends before it starts and the loop misses its end, and the search
-- for the next event gives the first of them.
pub find_in_range-reference :
    (start end : ℕ) (t : TriggerEvents)
    → FromMulti 0 t.events
    → ((find_transaction_trigger_events_in_range start end t
          ≡ ok (events_between start end t.events))
        ⊎ ((end < start)
            × (find_transaction_trigger_events_in_range start end t ≡ throw out_of_range)))
      × (find_next_transaction_trigger_event_in_range start end t
          ≡ head (events_between start end t.events))
unfolding find_transaction_trigger_events_in_range find_next_transaction_trigger_event_in_range
find_in_range-reference start end t f = (
  elim (Bool-cases (passes_end start end t.events)) [
    | inl missed ↦ inr (passes_end-reversed start end t.events missed, rw missed refl)
    | inr met ↦ inl (rw met (ap ok (in_range start end 0 t.events f)))
  ],
  first_until-head end (lower_bound start t.events) ∙ ap head (in_range start end 0 t.events f),
)

erase_same-FromMulti :
    (is_the_same : Event → Event → Bool) (e : Event) (b : ℕ) (m : Map Event)
    → FromMulti b m
    → FromMulti b (erase_same is_the_same e m)
unfolding erase_same
erase_same-FromMulti is_the_same e b [] f = tt
erase_same-FromMulti is_the_same e b ((d, x) ∷ m) (le, f) =
    ground (arith, FromMulti-weaken b d m le f, erase_same-FromMulti is_the_same e d m f)

erase_same-AreKeyed :
    (is_the_same : Event → Event → Bool) (e : Event) (m : Map Event)
    → AreKeyed (λ (x : Event). x.target_date) m
    → AreKeyed (λ (x : Event). x.target_date) (erase_same is_the_same e m)
unfolding erase_same
erase_same-AreKeyed is_the_same e [] a = tt
erase_same-AreKeyed is_the_same e ((d, x) ∷ m) a =
    let rest = erase_same-AreKeyed is_the_same e m a.1 in
    elim (Bool-cases (d == e.target_date && is_the_same e x)) [
      | inl same ↦ rw same a.1
      | inr other ↦ rw other (a.0, rest)
    ]

-- Nothing is gone, or one event that is the same is.
abbrev pub IsRemoved : (Event → Event → Bool) → Event → Map Event → Map Event → Type 0
IsRemoved is_the_same e m m' =
    ((m' ≡ m) × (has_same is_the_same e m ≡ false))
    ⊎ ((x : Event) × (is_the_same e x ≡ true) × Inserted e.target_date x m' m)

erase_same-Inserted :
    (is_the_same : Event → Event → Bool) (e : Event) (m : Map Event)
    → has_same is_the_same e m ≡ true
    → (x : Event) × (is_the_same e x ≡ true)
      × Inserted e.target_date x (erase_same is_the_same e m) m
unfolding erase_same has_same
erase_same-Inserted is_the_same e [] h = absurd (ground arith)
erase_same-Inserted is_the_same e ((d, x) ∷ m) h =
    elim (Bool-cases (d == e.target_date && is_the_same e x)) [
      | inl same ↦
          let at : d ≡ e.target_date = ground arith in
          rw same (
            x,
            ground arith,
            record { before = []; after = m; old = refl; new = ap (λ k. (k, x) ∷ m) at },
          )
      | inr other ↦
          let (y, y_same, i) = erase_same-Inserted is_the_same e m (rw other at h) in
          rw other (
            y,
            y_same,
            record {
              before = (d, x) ∷ i.before;
              after = i.after;
              old = ap (λ (l : Map Event). (d, x) ∷ l) i.old;
              new = ap (λ (l : Map Event). (d, x) ∷ l) i.new;
            },
          )
    ]

-- Adding and removing keep the events in the order of their dates, each under its own date. Adding puts
-- the event among the others, which stay, and removing takes nothing else away than one event that is the
-- same, if there is one.
pub add_remove-FromMulti :
    (is_the_same : Event → Event → Bool) (e : Event) (t : TriggerEvents)
    → FromMulti 0 t.events
    → AreKeyed (λ (x : Event). x.target_date) t.events
    → (FromMulti 0 (add_transaction_trigger_event e t).events
        × AreKeyed (λ (x : Event). x.target_date) (add_transaction_trigger_event e t).events
        × Inserted e.target_date e t.events (add_transaction_trigger_event e t).events)
      × (FromMulti 0 (remove_transaction_trigger_event is_the_same e t).events
          × AreKeyed
              (λ (x : Event). x.target_date)
              (remove_transaction_trigger_event is_the_same e t).events
          × IsRemoved is_the_same e t.events
              (remove_transaction_trigger_event is_the_same e t).events)
unfolding add_transaction_trigger_event remove_transaction_trigger_event update_state
add_remove-FromMulti is_the_same e t f a = (
  (
    insert_multi-FromMulti e.target_date 0 e t.events (omega arith) f,
    insert_multi-AreKeyed (λ (x : Event). x.target_date) e.target_date e t.events refl a,
    insert_multi-Inserted e.target_date e t.events,
  ),
  elim (Bool-cases (has_same is_the_same e t.events)) [
    | inl there ↦ rw there (
      erase_same-FromMulti is_the_same e 0 t.events f,
      erase_same-AreKeyed is_the_same e t.events a,
      inr (erase_same-Inserted is_the_same e t.events there),
    )
    | inr absent ↦ rw absent (f, a, inl (refl, refl))
  ],
)
