-- ===== src/FuzzyTimer/Registry.antt =====
-- src/lib/FuzzyTimer.cpp: what the operations do to the map of the entries.
use gradido_node.Prelude.{
  ℕ, ◌⊎◌, ◌+◌, ◌≤◌, ◌≡◌, ◌≢◌, refl, true, false, [], ◌∷◌, Option, none, some, ◌==◌, if◌then◌else◌,
  pos, ok, arith, length,
}
use gradido_node.OrderedMap.{Map}
use gradido_node.OrderedMap.Multi.{FromMulti, insert_multi-FromMulti, FromMulti-weaken, Inserted}
use gradido_node.FuzzyTimer.{
  TimerReturn, Entry, FuzzyTimer, counted, next_loop, erase_named, remove_timer, renew, call_entry,
  move_first,
}

pub erase_named-FromMulti :
    (name b : ℕ) (m : Map Entry) → FromMulti b m → FromMulti b (erase_named name m).0
unfolding erase_named
erase_named-FromMulti name b [] f = tt
erase_named-FromMulti name b ((k, e) ∷ m) (h, f) =
    let rest : FromMulti k (erase_named name m).0 = erase_named-FromMulti name k m f in
    ground (arith, rest, FromMulti-weaken b k (erase_named name m).0 h rest)

pub renew-FromMulti :
    (now : ℕ) (answer : TimerReturn) (e : Entry) (b : ℕ) (rest : Map Entry)
    → b ≤ now
    → FromMulti b rest
    → FromMulti b (renew now answer e rest)
unfolding renew next_loop
renew-FromMulti now answer e b rest h f =
    ground (arith, insert_multi-FromMulti (now + e.time_interval) b (counted e) rest)

pub call_entry-FromMulti :
    (now : ℕ) (answers : ℕ → TimerReturn) (e : Entry) (c : Option ℕ) (rest : Map Entry)
    (t : FuzzyTimer)
    → FromMulti 0 rest
    → FromMulti 0 (call_entry now answers e c rest t).registered_at_timer
unfolding call_entry
call_entry-FromMulti now answers e none rest t f = f
call_entry-FromMulti now answers e (some c) rest t f =
    renew-FromMulti now (answers c) e 0 rest (omega arith) f

pub move_first-FromMulti :
    (now : ℕ) (answers : ℕ → TimerReturn) (m : Map Entry) (t : FuzzyTimer)
    → FromMulti 0 m
    → FromMulti 0 t.registered_at_timer
    → FromMulti 0 (move_first now answers m t).registered_at_timer
unfolding move_first
move_first-FromMulti now answers [] t f g = g
move_first-FromMulti now answers ((k, e) ∷ rest) t (h, f) g =
    ground
      (arith, call_entry-FromMulti now answers e e.callback rest t (FromMulti-weaken 0 k rest h f))

-- What a move leaves of the entries: all, all but the first one if it was due, or that one at a later time.
abbrev pub IsMoved : ℕ → Map Entry → Map Entry → Type 0
IsMoved now [] m' = m' ≡ []
IsMoved now ((k, e) ∷ rest) m' =
    (m' ≡ (k, e) ∷ rest)
    ⊎ ((k ≤ now) × ((m' ≡ rest) ⊎ Inserted (now + e.time_interval) (counted e) rest m'))

-- The entries of a name, in their order.
abbrev pub named : ℕ → Map Entry → Map Entry
named name [] = []
named name ((k, e) ∷ m) = if name == e.name then (k, e) ∷ named name m else named name m

pub erase_named-same :
    (name : ℕ) (m : Map Entry)
    → (named name (erase_named name m).0 ≡ []) × ((erase_named name m).1 ≡ length (named name m))
unfolding erase_named
erase_named-same name [] = (refl, refl)
erase_named-same name ((k, e) ∷ m) = let (h, g) = erase_named-same name m in ground arith

pub erase_named-other :
    (name other : ℕ) (m : Map Entry)
    → name ≢ other
    → named other (erase_named name m).0 ≡ named other m
unfolding erase_named
erase_named-other name other [] ne = refl
erase_named-other name other ((k, e) ∷ m) ne =
    let h : named other (erase_named name m).0 ≡ named other m =
      erase_named-other name other m ne in
    ground arith

-- Removing a timer while the mutex is free and the timer has not been stopped returns the number of
-- entries of the name, leaves none of them, and leaves the entries of every other name as they are.
remove_timer_lem :
    (name : ℕ) (t : FuzzyTimer)
    → t.is_exited ≡ false
    → (t' : FuzzyTimer) × (remove_timer true name t
        ≡ ok (pos (length (named name t.registered_at_timer)), t'))
      × (named name t'.registered_at_timer ≡ [])
      × ((other : ℕ)
          → name ≢ other
          → named other t'.registered_at_timer ≡ named other t.registered_at_timer)
unfolding remove_timer
remove_timer_lem name t going =
    let (none_left, count) = erase_named-same name t.registered_at_timer in
    (
      record t { registered_at_timer = (erase_named name t.registered_at_timer).0 },
      ground (arith, count),
      none_left,
      λ other ne. erase_named-other name other t.registered_at_timer ne,
    )
