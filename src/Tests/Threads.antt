-- ===== src/Tests/Threads.antt =====
-- The ordering manager, the timer and the task observer at concrete inputs.
use gradido_node.Scheduler.{
  cpu_task, message_task, Task, task, parent, no_parents, Scheduler, schedule_task,
}
use gradido_node.Scheduler.Readiness.{IsSafe}
use gradido_node.Scheduler.Steps.{schedules, here, later, Reaches-IsSafe}
use gradido_node.Prelude.{
  zero, All, ◌≤◌, ℕ, suc, ◌+◌, ◌≡◌, ◌≢◌, ◌⊎◌, refl, true, false, List, [], ◌∷◌, ◌++◌, length, pos,
  negsuc, ok, arith, Option, none, some, ◌==◌, if◌then◌else◌,
}
use gradido_node.OrderedMap.{Map, find}
use gradido_node.OrderedMap.Multi.{FromMulti, AreKeyed, Inserted}
use gradido_node.OrderingManager.{
  returns, throws_gradido, scheduled, Transaction, Work, Fate, Manager, World, thread_function,
  push_transaction, added, check_pairing, check_pair, check_task,
}
use gradido_node.OrderingManager.Sequence.{IsServed, IsDue}
use gradido_node.OrderingManager.Rounds.{IsReadable, IsFaithful}
use gradido_node.OrderingManager.Totality.{
  OthersPush, IsTimedOut, thread_function-total, thread_function_missing,
}
use gradido_node.OrderingManager.Push.{push_transaction-FromMulti, push_transaction-OnePush}
use gradido_node.FuzzyTimer.{FuzzyTimer, new_entry}
use gradido_node.TaskObserver.{
  TaskObserver, add_block_write_task, remove_block_write_task, is_transaction_pending,
}
use gradido_node.TaskObserver.Pending.{adds, removes, after, add_remove-is_transaction_pending}

abbrev outbound : Transaction
outbound = record { is_inbound = false; other_group = 0; pairing_id = none; content = 5 }

abbrev inbound : Transaction
inbound = record { is_inbound = true; other_group = 0; pairing_id = some 3; content = 5 }

abbrev work : Transaction → ℕ → Work
work t nr = record {
  sequence_number = nr;
  consensus_timestamp = 100 + nr;
  running_hash = nr;
  transaction_id = some nr;
  message = nr;
  put_into_list_time = 0;
  task = record { is_task_finished = true; is_success = true; transaction = some t };
}

abbrev manager : Map Work → Manager
manager ts = record {
  last_sequence_number = 0;
  transactions = ts;
  last_transactions = [];
  exit_called = false;
  known_sequence_number = 0;
  history = [];
}

abbrev two_messages : Manager
two_messages = manager ((101, work outbound 1) ∷ (102, work inbound 2) ∷ [])

abbrev world : ℕ → World
world now = record {
  now = now;
  max_timespan = 5;
  own_community_known = true;
  community_known = λ g. true;
  find_pair = λ g id. none;
  is_pairing = λ a b. true;
  create_and_add = λ w. throws_gradido;
  update_known = λ w. returns;
  notificate_failed = λ w. returns;
  notificate_skipped = λ w. returns;
  update_known_again = λ w. returns;
}

world-IsFaithful : (now : ℕ) → IsFaithful (world now)
unfolding IsFaithful
world-IsFaithful now = (
  refl,
  (λ w. ((λ e. absurd (ground arith)), (λ e. absurd (ground arith)), refl, refl)),
  λ g id p h f. absurd (ground arith),
)

-- A cache that keeps everything.
abbrev cache_get : List (ℕ × ℕ) → ℕ → Option ℕ
cache_get [] k = none
cache_get ((h, t) ∷ l) k = if h == k then some t else cache_get l k

-- A third message is pushed after the first round.
abbrev pushing : ℕ → Manager → Manager
pushing zero m = (push_transaction cache_get (work outbound 3) 0 m).1
pushing (suc k) m = m

abbrev left : ℕ → ℕ
left zero = 1
left (suc k) = 0

pushing-OthersPush : OthersPush (λ k. world (k + 6)) pushing 0 left
pushing-OthersPush = record {
  leaves = record { history_eq = history_same; number_eq = number_same };
  readable = readable_kept;
  timed_out = timed_out_kept;
  grows = grown;
}
  where
    history_same : (k : ℕ) (m : Manager) → (pushing k m).history ≡ m.history
    history_same zero m =
        (push_transaction-OnePush IsReadable cache_get (work outbound 3) 0 m
          ((λ e. absurd (ground arith)), refl)).history_eq
    history_same (suc k) m = refl

    number_same :
        (k : ℕ) (m : Manager) → (pushing k m).last_sequence_number ≡ m.last_sequence_number
    number_same zero m =
        (push_transaction-OnePush IsReadable cache_get (work outbound 3) 0 m
          ((λ e. absurd (ground arith)), refl)).number_eq
    number_same (suc k) m = refl

    readable_kept :
        (k : ℕ) (m : Manager)
        → All IsReadable m.transactions
        → All IsReadable (pushing k m).transactions
    readable_kept zero m a =
        (push_transaction-OnePush IsReadable cache_get (work outbound 3) 0 m
            ((λ e. absurd (ground arith)), refl)).holds
          a
    readable_kept (suc k) m a = a

    timed_out_kept :
        (k : ℕ) (m : Manager) (j : ℕ)
        → 0 ≤ j
        → All (IsTimedOut (world (j + 6))) m.transactions
        → All (IsTimedOut (world (j + 6))) (pushing k m).transactions
    timed_out_kept zero m j h a =
        (push_transaction-OnePush (IsTimedOut (world (j + 6))) cache_get (work outbound 3) 0 m
            (omega arith)).holds
          a
    timed_out_kept (suc k) m j h a = a

    grown :
        (k : ℕ) (m : Manager)
        → length (pushing k m).transactions + left (suc k) ≤ length m.transactions + left k
    grown zero m =
        let p =
          push_transaction-OnePush IsReadable cache_get (work outbound 3) 0 m
            ((λ e. absurd (ground arith)), refl) in
        omega (arith, p.at_most)
    grown (suc k) m = omega arith

thread_function-total_example :
    (m' : Manager) × (thread_function 6 (λ k. world (k + 6)) pushing two_messages ≡ ok m')
    × (h : List (ℕ × Fate)) × (m'.history ≡ [] ++ h)
    × IsServed 0 h m'.last_sequence_number
thread_function-total_example =
    thread_function-total (λ k. world (k + 6)) pushing 6 0 left two_messages pushing-OthersPush
      (λ k. world-IsFaithful (k + 6)) (((λ e. refl), refl), (((λ e. refl), refl), tt))
      (λ k h. (omega arith, (omega arith, tt))) (omega arith)

thread_function_missing_example :
    thread_function 7 (λ k. world 3) pushing (manager ((101, work inbound 1) ∷ []))
    ≡ ok (manager ((101, work inbound 1) ∷ []))
unfolding check_pairing check_pair check_task IsDue
thread_function_missing_example =
    thread_function_missing 6 (λ k. world 3) pushing (manager ((101, work inbound 1) ∷ [])) 101
      (work inbound 1) [] inbound refl refl refl (omega arith) refl

push_transaction-FromMulti_example :
    let (result, m') = push_transaction cache_get (work outbound 3) 9 two_messages in
    FromMulti 0 m'.transactions
    × AreKeyed (λ (v : Work). v.consensus_timestamp) m'.transactions
    × (((result ≡ added)
          × Inserted 103
              (record (work outbound 3) { put_into_list_time = 9; task = scheduled })
              two_messages.transactions
              m'.transactions)
        ⊎ ((result ≢ added) × (m' ≡ two_messages)))
push_transaction-FromMulti_example =
    push_transaction-FromMulti cache_get (work outbound 3) 9 two_messages
      (omega arith, (omega arith, tt)) (refl, (refl, tt))

abbrev timer : FuzzyTimer
timer = record {
  registered_at_timer =
      (10, new_entry 1 (some 7) 5 (pos 4)) ∷ (20, new_entry 2 (some 8) 5 (negsuc 0)) ∷ [];
  is_exited = false;
  calls = [];
}

abbrev no_tasks : TaskObserver
no_tasks = record { block_write_tasks = []; transactions_from_pending_tasks = [] }

-- Another task comes and goes meanwhile.
add_remove-is_transaction_pending_example :
    let o1 =
      after
        (adds 5 ((3, 13) ∷ []) ∷ removes 5 ∷ [])
        (add_block_write_task 4 ((1, 11) ∷ (2, 12) ∷ []) no_tasks).1 in
    let (is_removed, o2) = remove_block_write_task 4 o1 in
    (is_transaction_pending 2 o1 ≡ true)
    × (is_removed ≡ true)
    × (is_transaction_pending 2 o2 ≡ false)
unfolding find
add_remove-is_transaction_pending_example =
    add_remove-is_transaction_pending 4 2 ((1, 11) ∷ (2, 12) ∷ [])
      (adds 5 ((3, 13) ∷ []) ∷ removes 5 ∷ []) no_tasks tt tt refl refl
      (λ j es e. absurd (ground arith)) ((λ e. ground arith, refl), (λ e. ground arith, tt))

-- A task with a parent that has not run, and one free worker.
abbrev child : Task
child = task cpu_task 1 (parent (task message_task 2 no_parents) no_parents)

abbrev idle_scheduler : Scheduler
idle_scheduler = record {
  pending_tasks = [];
  free_worker_threads = 7 ∷ [];
  running = [];
  scheduled = [];
  finished = [];
  arrived = [];
  is_stopped = false;
}

Reaches-IsSafe_example : IsSafe (schedule_task child idle_scheduler)
Reaches-IsSafe_example =
    Reaches-IsSafe idle_scheduler (schedule_task child idle_scheduler) refl
      (later here (schedules child))
