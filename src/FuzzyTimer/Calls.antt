-- ===== src/FuzzyTimer/Calls.antt =====
-- src/lib/FuzzyTimer.{h,cpp}: how often a timer is called.
use gradido_node.Prelude.{
  ℕ, suc, ◌+◌, ◌-◌, ◌≤◌, ◌<◌, ◌≡◌, refl, true, false, List, [], ◌∷◌, some, ltb, pos, arith, length,
  ltb→lt, Bool-cases, inl, inr,
}
use Prim.Native.Nat.{min, max}
use gradido_node.OrderedMap.Multi.{insert_multi}
use gradido_node.FuzzyTimer.{
  TimerReturn, go_on, Entry, FuzzyTimer, has_next, counted, next_loop, renew, call_entry,
  move_first, move, run,
}

-- The timer whose only entry, at a time, is the given one.
abbrev pub sole : ℕ → ℕ → Entry → List ℕ → FuzzyTimer
sole due c e calls = record {
  registered_at_timer = (due, record e { callback = some c }) ∷ [];
  is_exited = false;
  calls = calls;
}

abbrev pub idle : List ℕ → FuzzyTimer
idle calls = record { registered_at_timer = []; is_exited = false; calls = calls }

-- The times of the moves leave the entry its interval from call to call.
abbrev pub IsSpaced : ℕ → ℕ → List ℕ → Type 0
IsSpaced due interval [] = Unit
IsSpaced due interval (now ∷ times) = (due ≤ now) × IsSpaced (now + interval) interval times

pub move-last :
    (due now c : ℕ) (e : Entry) (calls : List ℕ) (answers : ℕ → TimerReturn)
    → due ≤ now
    → has_next e.init_loop_count (suc e.current_loop_count) ≡ false
    → move now answers (sole due c e calls) ≡ (true, idle (c ∷ calls))
unfolding move move_first call_entry renew next_loop
move-last due now c e calls answers h last = ground arith

pub move-again :
    (due now c : ℕ) (e : Entry) (calls : List ℕ) (answers : ℕ → TimerReturn)
    → due ≤ now
    → answers c ≡ go_on
    → has_next e.init_loop_count (suc e.current_loop_count) ≡ true
    → move now answers (sole due c e calls)
      ≡ (true, sole (now + e.time_interval) c (counted e) (c ∷ calls))
unfolding move move_first call_entry renew next_loop insert_multi
move-again due now c e calls answers h a more = ground arith

pub run-idle :
    (times : List ℕ) (answers : ℕ → TimerReturn) (calls : List ℕ)
    → run times answers (idle calls) ≡ idle calls
unfolding run move move_first
run-idle [] answers calls = refl
run-idle (now ∷ times) answers calls = run-idle times answers calls

pub next_lt :
    (e : Entry) (n : ℕ)
    → e.init_loop_count ≡ pos n
    → has_next e.init_loop_count (suc e.current_loop_count) ≡ true
    → suc (suc e.current_loop_count) < n
unfolding has_next
next_lt e n i h = let h' = rw i at h in omega (arith, ltb→lt (suc e.current_loop_count + 1) n h')

pub next_ge :
    (e : Entry) (n : ℕ)
    → e.init_loop_count ≡ pos n
    → has_next e.init_loop_count (suc e.current_loop_count) ≡ false
    → n ≤ suc (suc e.current_loop_count)
unfolding has_next
next_ge e n i h = let h' : ltb (suc e.current_loop_count + 1) n ≡ false = rw i at h in ground arith

-- A timer that is registered alone with a loop count n of 0 or more and whose callback always answers
-- go_on is called at every move that comes after its interval, until it was called as often as
-- n - 1, and once where n is 0 or 1; c counts the calls that came before.
run-calls :
    (times : List ℕ) (answers : ℕ → TimerReturn) (due c n : ℕ) (e : Entry) (calls : List ℕ)
    → e.init_loop_count ≡ pos n
    → answers c ≡ go_on
    → IsSpaced due e.time_interval times
    → length (run times answers (sole due c e calls)).calls
      ≡ min (length times) (max 1 (n - 1 - e.current_loop_count)) + length calls
unfolding run has_next
run-calls [] answers due c n e calls i a s = omega arith
run-calls (now ∷ times) answers due c n e calls i a (d, s) =
    elim (Bool-cases (has_next e.init_loop_count (suc e.current_loop_count))) [
      | inl more ↦ rw (move-again due now c e calls answers d a more) (
          let rest =
            run-calls times answers (now + e.time_interval) c n (counted e) (c ∷ calls) i a s in
          let left : suc (suc e.current_loop_count) < n = next_lt e n i more in omega (arith, rest))
      | inr last ↦ rw (move-last due now c e calls answers d last) (
          rw (run-idle times answers (c ∷ calls))
            (let left : n ≤ suc (suc e.current_loop_count) = next_ge e n i last in omega arith))
    ]
