-- ===== src/FuzzyTimer.antt =====
-- src/lib/FuzzyTimer.{h,cpp}: the callbacks that are due are called one at each move. A time is in
-- milliseconds, a name and a callback object are the numbers that stand for them. The mutex makes
-- each operation one step.
pub mod Calls
pub mod Registry
use gradido_node.Prelude.{
  ℕ, suc, ◌+◌, Bool, true, false, ◌&&◌, not, List, [], ◌∷◌, Option, none, some, ltb, leb, ◌==◌,
  if◌then◌else◌, ℤ, pos, negsuc, Outcome, ok, throw, cannot_lock_mutex,
}
use gradido_node.OrderedMap.{Map}
use gradido_node.OrderedMap.Multi.{insert_multi}

pub data TimerReturn : Type 0 where
  go_on remove_me report_error exception not_set : TimerReturn

abbrev pub is_go_on : TimerReturn → Bool
is_go_on go_on = true
is_go_on remove_me = false
is_go_on report_error = false
is_go_on exception = false
is_go_on not_set = false

-- TimerEntry; without a callback the pointer is null.
pub record Entry : Type 0 where
  pub callback : Option ℕ
  pub time_interval : ℕ
  pub init_loop_count : ℤ
  pub current_loop_count : ℕ
  pub name : ℕ

-- The calls are the callbacks that were called so far, the newest first.
pub record FuzzyTimer : Type 0 where
  pub registered_at_timer : Map Entry
  pub is_exited : Bool
  pub calls : List ℕ

-- `initLoopCount < 0 || initLoopCount - 1 > currentLoopCount`
unfoldable pub has_next : ℤ → ℕ → Bool
has_next (negsuc n) current = true
has_next (pos n) current = ltb (current + 1) n

abbrev pub counted : Entry → Entry
counted e = record e { current_loop_count = suc e.current_loop_count }

unfoldable pub next_loop : Entry → Bool × Entry
next_loop e = (has_next e.init_loop_count (suc e.current_loop_count), counted e)

abbrev pub new_entry : ℕ → Option ℕ → ℕ → ℤ → Entry
new_entry name callback interval loop_count = record {
  callback = callback;
  time_interval = interval;
  init_loop_count = loop_count;
  current_loop_count = 0;
  name = name;
}

unfoldable pub add_timer : ℕ → Option ℕ → ℕ → ℤ → ℕ → FuzzyTimer → Bool × FuzzyTimer
add_timer name callback interval loop_count now t = if t.is_exited then (false, t) else (
  true,
  record t {
    registered_at_timer =
        insert_multi (now + interval) (new_entry name callback interval loop_count)
          t.registered_at_timer;
  },
)

-- The loop of `removeTimer`: what stays, and how many were erased.
unfoldable pub erase_named : ℕ → Map Entry → Map Entry × ℕ
erase_named name [] = ([], 0)
erase_named name ((k, e) ∷ m) =
    let (rest, n) = erase_named name m in
    if name == e.name then (rest, suc n) else ((k, e) ∷ rest, n)

-- Whether `try_lock` gets the mutex is up to the other threads.
unfoldable pub remove_timer : Bool → ℕ → FuzzyTimer → Outcome (ℤ × FuzzyTimer)
remove_timer is_lockable name t =
    if not is_lockable
    then throw cannot_lock_mutex
    else if t.is_exited
    then ok (negsuc 0, t)
    else ok (
      pos (erase_named name t.registered_at_timer).1,
      record t { registered_at_timer = (erase_named name t.registered_at_timer).0 },
    )

-- The entry after its callback answered: in the map again, behind the first entry, or gone. The
-- first entry is erased in both cases.
unfoldable pub renew : ℕ → TimerReturn → Entry → Map Entry → Map Entry
renew now answer e rest =
    let (again, e') = next_loop e in
    if again && is_go_on answer then insert_multi (now + e.time_interval) e' rest else rest

unfoldable pub call_entry :
    ℕ → (ℕ → TimerReturn) → Entry → Option ℕ → Map Entry → FuzzyTimer → FuzzyTimer
call_entry now answers e none rest t = record t { registered_at_timer = rest }
call_entry now answers e (some c) rest t = record t {
  registered_at_timer = renew now (answers c) e rest;
  calls = c ∷ t.calls;
}

unfoldable pub move_first : ℕ → (ℕ → TimerReturn) → Map Entry → FuzzyTimer → FuzzyTimer
move_first now answers [] t = t
move_first now answers ((k, e) ∷ rest) t =
    if leb k now then call_entry now answers e e.callback rest t else t

-- `move` at a time; an exception that a callback throws is its answer `exception`.
unfoldable pub move : ℕ → (ℕ → TimerReturn) → FuzzyTimer → Bool × FuzzyTimer
move now answers t =
    if t.is_exited then (false, t) else (true, move_first now answers t.registered_at_timer t)

unfoldable pub stop : FuzzyTimer → FuzzyTimer
stop t = record t { is_exited = true }

-- `run`, for the times at which it moves.
unfoldable pub run : List ℕ → (ℕ → TimerReturn) → FuzzyTimer → FuzzyTimer
run [] answers t = t
run (now ∷ times) answers t =
    let (again, t') = move now answers t in
    let rest = run times answers t' in if again then rest else t'
