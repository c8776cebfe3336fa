-- ===== src/Scheduler.antt =====
-- src/task/Task.{h,cpp}, CPUTask.cpp, CPUSheduler.{h,cpp} and CPUShedulerThread.cpp: tasks that wait for
-- their parents, and the worker threads that run them. A call under the mutexes is one step. A task is
-- known by the number that stands for its address, with its parents below it.
pub mod Readiness
pub mod Steps
use gradido_node.Prelude.{
  ℕ, zero, suc, ◌+◌, Bool, true, false, ◌&&◌, ◌||◌, not, List, [], ◌∷◌, ◌++◌, Option, none, some,
  ◌==◌, if◌then◌else◌,
}

-- Which `isReady` a task has: the one of CPUTask, or that of CPUTaskGRPCReactor and
-- CheckForCrossGroupPairTask, which only look at whether their message has arrived.
pub data Kind : Type 0 where
  cpu_task message_task : Kind

mutual
  pub data Task : Type 0 where
    task : Kind → ℕ → Parents → Task

  -- The array of parents; an entry that is not set is left out.
  pub data Parents : Type 0 where
    no_parents : Parents
    parent : Task → Parents → Parents

abbrev pub id_of : Task → ℕ
id_of (task kind id ps) = id

abbrev pub parents_of : Task → Parents
parents_of (task kind id ps) = ps

-- The scheduler with the flags of the tasks: those that are scheduled, those that have finished, and those whose
-- message has arrived.
pub record Scheduler : Type 0 where
  pub pending_tasks : List Task
  pub free_worker_threads : List ℕ
  pub running : List (ℕ × Task)
  pub scheduled : List ℕ
  pub finished : List ℕ
  pub arrived : List ℕ
  pub is_stopped : Bool

unfoldable pub is_in : ℕ → List ℕ → Bool
is_in id [] = false
is_in id (j ∷ js) = (j == id) || is_in id js

-- A worker gets the task, or it waits.
unfoldable pub give : Task → List ℕ → Scheduler → Scheduler
give t [] s = record s { pending_tasks = s.pending_tasks ++ t ∷ [] }
give t (w ∷ ws) s = record s { free_worker_threads = ws; running = (w, t) ∷ s.running }

unfoldable pub place : Task → Bool × Scheduler → Scheduler
place t (true, s) = give t s.free_worker_threads s
place t (false, s) = record s { pending_tasks = s.pending_tasks ++ t ∷ [] }

abbrev pub mark_scheduled : ℕ → Scheduler → Scheduler
mark_scheduled id s = record s { scheduled = id ∷ s.scheduled }

unfoldable pub unless_stopped : Scheduler → Scheduler → Scheduler
unless_stopped s s' = if s.is_stopped then s else s'

-- `isReady`, from the look at the parents on.
unfoldable pub ready_of : Kind → ℕ → Bool × Scheduler → Scheduler → Bool × Scheduler
ready_of cpu_task id looked s = looked
ready_of message_task id looked s = (is_in id s.arrived, s)

unfoldable mutual
  -- `isAllParentsReady`: a parent that has not finished is scheduled.
  pub is_all_parents_ready : Parents → Scheduler → Bool × Scheduler
  is_all_parents_ready no_parents s = (true, s)
  is_all_parents_ready (parent t ps) s =
      let if_finished = is_all_parents_ready ps s in
      let otherwise = is_all_parents_ready ps (schedule_task t s) in
      if is_in (id_of t) s.finished then if_finished else (false, otherwise.1)

  -- `scheduleTask` with `sheduleTask` of the scheduler: a task is scheduled once.
  pub schedule_task : Task → Scheduler → Scheduler
  schedule_task (task kind id ps) s =
      let ready = ready_of kind id (is_all_parents_ready ps s) s in
      let placed = place (task kind id ps) ready in
      if is_in id s.scheduled then s else mark_scheduled id (unless_stopped s placed)

-- `isReady`
unfoldable pub is_ready : Task → Scheduler → Bool × Scheduler
is_ready (task kind id ps) s = ready_of kind id (is_all_parents_ready ps s) s

-- `sheduleTask` of the scheduler.
unfoldable pub shedule_task : Task → Scheduler → Scheduler
shedule_task t s = unless_stopped s (place t (is_ready t s))

unfoldable pub nth_task : ℕ → List Task → Option Task
nth_task n [] = none
nth_task zero (t ∷ ts) = some t
nth_task (suc n) (t ∷ ts) = nth_task n ts

unfoldable pub erase_nth : ℕ → List Task → List Task
erase_nth n [] = []
erase_nth zero (t ∷ ts) = ts
erase_nth (suc n) (t ∷ ts) = t ∷ erase_nth n ts

unfoldable pub take_or_go_on :
    ℕ → Task → Option Task × Scheduler → Bool × Scheduler → Option Task × Scheduler
take_or_go_on n t rest (true, s) =
    (some t, record s { pending_tasks = erase_nth n s.pending_tasks })
take_or_go_on n t rest (false, s) = rest

-- A round of the loop, with what the loop does from a position on.
unfoldable pub look_at :
    (ℕ → Scheduler → Option Task × Scheduler)
    → ℕ
    → Option Task
    → Scheduler
    → Option Task × Scheduler
look_at go n none s = (none, s)
look_at go n (some t) s = let ready = is_ready t s in take_or_go_on n t (go (suc n) ready.1) ready

-- The loop over the pending tasks, which sees what is put behind them meanwhile.
unfoldable pub find_ready : ℕ → ℕ → Scheduler → Option Task × Scheduler
find_ready zero n s = (none, s)
find_ready (suc fuel) n s = look_at (find_ready fuel) n (nth_task n s.pending_tasks) s

unfoldable mutual
  pub size : Task → ℕ
  size (task kind id ps) = suc (size_parents ps)

  pub size_parents : Parents → ℕ
  size_parents no_parents = 0
  size_parents (parent t ps) = size t + size_parents ps

unfoldable pub size_all : List Task → ℕ
size_all [] = 0
size_all (t ∷ ts) = size t + size_all ts

-- The part of `getNextUndoneTask` before a worker goes to the free ones. What a round puts behind is a
-- parent of a task that is there, so the sizes of all are rounds enough.
unfoldable pub get_next_undone_task : Scheduler → Option Task × Scheduler
get_next_undone_task s = find_ready (suc (size_all s.pending_tasks)) 0 s

unfoldable pub go_on : ℕ → Option Task × Scheduler → Scheduler
go_on w (none, s) = record s { free_worker_threads = s.free_worker_threads ++ w ∷ [] }
go_on w (some t, s) = record s { running = (w, t) ∷ s.running }

unfoldable pub without_worker : ℕ → List (ℕ × Task) → List (ℕ × Task)
without_worker w [] = []
without_worker w ((v, t) ∷ rest) =
    if v == w then without_worker w rest else (v, t) ∷ without_worker w rest

abbrev pub finish : Bool → ℕ → Scheduler → Scheduler
finish false id s = s
finish true id s = record s { finished = id ∷ s.finished }

-- A round of the loop of a worker thread: its task has run, with the result zero or not, and it takes
-- the next one.
unfoldable pub work : Bool → ℕ → Task → Scheduler → Scheduler
work result_is_zero w t s = go_on w (
    get_next_undone_task
      (finish result_is_zero (id_of t) (record s { running = without_worker w s.running })))

-- `checkPendingTasks`
unfoldable pub schedule_found : Option Task × Scheduler → Scheduler
schedule_found (none, s) = s
schedule_found (some t, s) = shedule_task t s

unfoldable pub check_pending_tasks : Scheduler → Scheduler
check_pending_tasks s = unless_stopped s (schedule_found (get_next_undone_task s))

-- `stop`
unfoldable pub stop : Scheduler → Scheduler
stop s = record s { is_stopped = true; pending_tasks = [] }

-- The message of a task arrives, in a thread of its own.
abbrev pub arrive : ℕ → Scheduler → Scheduler
arrive id s = record s { arrived = id ∷ s.arrived }
