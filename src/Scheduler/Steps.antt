-- ===== src/Scheduler/Steps.antt =====
-- src/task: what runs in every state that the scheduler can come to.
use gradido_node.Prelude.{
  ℕ, ◌≡◌, sym, ◌∙◌, Bool, true, false, ◌||◌, ◌&&◌, List, [], ◌∷◌, Option, none, some, ◌==◌,
}
use mathlib.Core.Path.{subst}
use gradido_node.Scheduler.{
  Task, id_of, Scheduler, is_ready, arrive, schedule_task, shedule_task, get_next_undone_task,
  without_worker, finish, work, schedule_found, check_pending_tasks, stop,
}
use gradido_node.Scheduler.Readiness.{
  AreReady, IsSafe, Keeps, Finds, unless_stopped-Keeps, place-Keeps, is_ready-Answers,
  AreReady-arrived, schedule_task-Keeps, find_ready-Finds, go_on-IsSafe, without_worker-AreReady,
  finish-IsSafe,
}

-- The worker has the task with the number.
abbrev pub is_running : ℕ → ℕ → List (ℕ × Task) → Bool
is_running w id [] = false
is_running w id ((v, t) ∷ rs) = (v == w) && (id_of t == id) || is_running w id rs

-- The steps of the scheduler: a task is scheduled, a worker ends its task and goes on, the timer checks the
-- pending tasks, the scheduler is stopped, the message of a task arrives.
pub data Step : Scheduler → Scheduler → Type 0 where
  schedules : {s : Scheduler} (t : Task) → Step s (schedule_task t s)
  works :
      {s : Scheduler} (result_is_zero : Bool) (w : ℕ) (t : Task)
      → is_running w (id_of t) s.running ≡ true
      → Step s (work result_is_zero w t s)
  checks : {s : Scheduler} → Step s (check_pending_tasks s)
  stops : {s : Scheduler} → Step s (stop s)
  arrives : {s : Scheduler} (id : ℕ) → Step s (arrive id s)

pub data Reaches (s0 : Scheduler) : Scheduler → Type 0 where
  here : Reaches s0 s0
  later : {s s' : Scheduler} → Reaches s0 s → Step s s' → Reaches s0 s'

schedule_found-Keeps :
    (s : Scheduler) (r : Option Task × Scheduler) → Finds s r → Keeps s (schedule_found r)
unfolding schedule_found shedule_task
schedule_found-Keeps s (none, s1) f = f.keeps
schedule_found-Keeps s (some t, s1) f =
    let look = is_ready-Answers t s1 f.keeps.safe in
    let placed = place-Keeps t s1 (is_ready t s1) look.keeps look.ready in
    let kept = unless_stopped-Keeps s1 _ f.keeps.safe placed in
    record {
      safe = kept.safe;
      finished_eq = kept.finished_eq ∙ f.keeps.finished_eq;
      arrived_eq = kept.arrived_eq ∙ f.keeps.arrived_eq;
    }

Step-IsSafe : (s s' : Scheduler) → IsSafe s → Step s s' → IsSafe s'
unfolding work get_next_undone_task check_pending_tasks stop
Step-IsSafe s s' v (schedules t) = (schedule_task-Keeps t s v).safe
Step-IsSafe s s' v (works b w t running) =
    let freed : Scheduler = record s { running = without_worker w s.running } in
    let done = finish b (id_of t) freed in
    go_on-IsSafe w done _ (
      find_ready-Finds _ 0 done (
        finish-IsSafe b (id_of t) freed
          (without_worker-AreReady s.finished s.arrived w s.running v)))
Step-IsSafe s s' v checks =
    (unless_stopped-Keeps s _ v (schedule_found-Keeps s _ (find_ready-Finds _ 0 s v))).safe
Step-IsSafe s s' v stops = v
Step-IsSafe s s' v (arrives id) = AreReady-arrived s.finished s.arrived id s.running v

-- From a scheduler without running tasks, whatever is scheduled, finished, checked, stopped and received in
-- whatever order: every task that runs has all its parents finished, or is one that waits for a message,
-- whatever its parents, and the message has arrived.
pub Reaches-IsSafe : (s0 s : Scheduler) → s0.running ≡ [] → Reaches s0 s → IsSafe s
Reaches-IsSafe s0 s idle here = subst (AreReady s0.finished s0.arrived) (sym idle) tt
Reaches-IsSafe s0 s idle (later {s = r} reached step) =
    Step-IsSafe r s (Reaches-IsSafe s0 r idle reached) step
