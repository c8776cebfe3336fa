-- ===== src/Scheduler/Readiness.antt =====
-- src/task: that a task only gets a worker when its parents have finished.
use gradido_node.Prelude.{
  ℕ, zero, suc, ◌≡◌, refl, ap, ◌∙◌, Bool, true, false, List, [], ◌∷◌, Option, none, some, ◌==◌,
  if◌then◌else◌, arith, Bool-cases, inl, inr,
}
use mathlib.Core.Path.{subst}
use mathlib.Core.Option.{some-injective}
use gradido_node.Scheduler.{
  Kind, cpu_task, message_task, ready_of, is_ready, Task, Parents, task, no_parents, parent, id_of,
  Scheduler, is_in, give, place, unless_stopped, is_all_parents_ready, schedule_task, nth_task,
  take_or_go_on, look_at, find_ready, go_on, without_worker, finish,
}

-- Every parent has finished.
abbrev pub HaveFinished : List ℕ → Parents → Type 0
HaveFinished done no_parents = Unit
HaveFinished done (parent t ps) = (is_in (id_of t) done ≡ true) × HaveFinished done ps

-- A task has all its parents finished, or, where it waits for a message, the message has arrived.
abbrev pub IsReady : List ℕ → List ℕ → Task → Type 0
IsReady done arrived (task cpu_task id ps) = HaveFinished done ps
IsReady done arrived (task message_task id ps) = is_in id arrived ≡ true

-- Every task that runs is ready.
abbrev pub AreReady : List ℕ → List ℕ → List (ℕ × Task) → Type 0
AreReady done arrived [] = Unit
AreReady done arrived ((w, t) ∷ rest) = IsReady done arrived t × AreReady done arrived rest

abbrev pub IsSafe : Scheduler → Type 0
IsSafe s = AreReady s.finished s.arrived s.running

-- A call that keeps safety and finishes nothing.
pub record Keeps (s s' : Scheduler) : Type 0 where
  pub safe : IsSafe s'
  pub finished_eq : s'.finished ≡ s.finished
  pub arrived_eq : s'.arrived ≡ s.arrived

pub place-Keeps :
    (t : Task) (s : Scheduler) (r : Bool × Scheduler)
    → Keeps s r.1
    → (r.0 ≡ true → IsReady r.1.finished r.1.arrived t)
    → Keeps s (place t r)
unfolding place give
place-Keeps t s (true, s1) k h = give_lem s1.free_worker_threads
  where
    give_lem : (ws : List ℕ) → Keeps s (give t ws s1)
    give_lem [] = record { safe = k.safe; finished_eq = k.finished_eq; arrived_eq = k.arrived_eq }
    give_lem (w ∷ ws) = record {
      safe = (h refl, k.safe);
      finished_eq = k.finished_eq;
      arrived_eq = k.arrived_eq;
    }
place-Keeps t s (false, s1) k h = record {
  safe = k.safe;
  finished_eq = k.finished_eq;
  arrived_eq = k.arrived_eq;
}

pub unless_stopped-Keeps :
    (s s' : Scheduler) → IsSafe s → Keeps s s' → Keeps s (unless_stopped s s')
unfolding unless_stopped
unless_stopped-Keeps s s' v k = chosen s.is_stopped
  where
    chosen : (b : Bool) → Keeps s (if b then s else s')
    chosen true = record { safe = v; finished_eq = refl; arrived_eq = refl }
    chosen false = k

-- What the look at the parents leaves, and what it says.
pub record LooksAt (ps : Parents) (s : Scheduler) (r : Bool × Scheduler) : Type 0 where
  pub keeps : Keeps s r.1
  pub ready : r.0 ≡ true → HaveFinished r.1.finished ps

-- What `isReady` leaves, and what it says.
pub record Answers (t : Task) (s : Scheduler) (r : Bool × Scheduler) : Type 0 where
  pub keeps : Keeps s r.1
  pub ready : r.0 ≡ true → IsReady r.1.finished r.1.arrived t

ready_of-Answers :
    (kind : Kind) (id : ℕ) (ps : Parents) (s : Scheduler) (looked : Bool × Scheduler)
    → LooksAt ps s looked
    → IsSafe s
    → Answers (task kind id ps) s (ready_of kind id looked s)
unfolding ready_of
ready_of-Answers cpu_task id ps s looked l v = record { keeps = l.keeps; ready = l.ready }
ready_of-Answers message_task id ps s looked l v = record {
  keeps = record { safe = v; finished_eq = refl; arrived_eq = refl };
  ready = λ e. e;
}

mutual
  unfolding is_all_parents_ready schedule_task

  pub is_all_parents_ready-LooksAt :
      (ps : Parents) (s : Scheduler) → IsSafe s → LooksAt ps s (is_all_parents_ready ps s)
  is_all_parents_ready-LooksAt no_parents s v = record {
    keeps = record { safe = v; finished_eq = refl; arrived_eq = refl };
    ready = λ e. tt;
  }
  is_all_parents_ready-LooksAt (parent t ps) s v =
      let rest = is_all_parents_ready-LooksAt ps s v in
      let one = schedule_task-Keeps t s v in
      let others = is_all_parents_ready-LooksAt ps (schedule_task t s) one.safe in
      elim (Bool-cases (is_in (id_of t) s.finished)) [
        | inl done ↦ rw done (record {
          keeps = rest.keeps;
          ready = λ e. (ap (is_in (id_of t)) rest.keeps.finished_eq ∙ done, rest.ready e);
        })
        | inr missing ↦ rw missing (record {
          keeps = record {
            safe = others.keeps.safe;
            finished_eq = others.keeps.finished_eq ∙ one.finished_eq;
            arrived_eq = others.keeps.arrived_eq ∙ one.arrived_eq;
          };
          ready = λ e. absurd (ground arith);
        })
      ]

  pub schedule_task-Keeps : (t : Task) (s : Scheduler) → IsSafe s → Keeps s (schedule_task t s)
  schedule_task-Keeps (task kind id ps) s v =
      let look = ready_of-Answers kind id ps s _ (is_all_parents_ready-LooksAt ps s v) v in
      let placed = place-Keeps (task kind id ps) s _ look.keeps look.ready in
      let kept = unless_stopped-Keeps s _ v placed in
      elim (Bool-cases (is_in id s.scheduled)) [
        | inl again ↦ rw again (record { safe = v; finished_eq = refl; arrived_eq = refl })
        | inr first ↦ rw first (record {
          safe = kept.safe;
          finished_eq = kept.finished_eq;
          arrived_eq = kept.arrived_eq;
        })
      ]

pub is_ready-Answers : (t : Task) (s : Scheduler) → IsSafe s → Answers t s (is_ready t s)
unfolding is_ready
is_ready-Answers (task kind id ps) s v =
    ready_of-Answers kind id ps s _ (is_all_parents_ready-LooksAt ps s v) v

-- What the search for a pending task leaves, and what it finds.
pub record Finds (s : Scheduler) (r : Option Task × Scheduler) : Type 0 where
  pub keeps : Keeps s r.1
  pub ready : (t : Task) → r.0 ≡ some t → IsReady r.1.finished r.1.arrived t

take_or_go_on-Finds :
    (n : ℕ) (t : Task) (s : Scheduler) (rest : Option Task × Scheduler) (r : Bool × Scheduler)
    → Answers t s r
    → (r.0 ≡ false → Finds r.1 rest)
    → Finds s (take_or_go_on n t rest r)
unfolding take_or_go_on
take_or_go_on-Finds n t s rest (true, s1) look later = record {
  keeps = record {
    safe = look.keeps.safe;
    finished_eq = look.keeps.finished_eq;
    arrived_eq = look.keeps.arrived_eq;
  };
  ready =
      λ u e. subst (λ v. IsReady s1.finished s1.arrived v) (some-injective t u e) (look.ready refl);
}
take_or_go_on-Finds n t s rest (false, s1) look later = record {
  keeps = record {
    safe = (later refl).keeps.safe;
    finished_eq = (later refl).keeps.finished_eq ∙ look.keeps.finished_eq;
    arrived_eq = (later refl).keeps.arrived_eq ∙ look.keeps.arrived_eq;
  };
  ready = (later refl).ready;
}

look_at-Finds :
    (go : ℕ → Scheduler → Option Task × Scheduler) (n : ℕ) (o : Option Task) (s : Scheduler)
    → ((m : ℕ) (s1 : Scheduler) → IsSafe s1 → Finds s1 (go m s1))
    → IsSafe s
    → Finds s (look_at go n o s)
unfolding look_at
look_at-Finds go n none s later v = record {
  keeps = record { safe = v; finished_eq = refl; arrived_eq = refl };
  ready = λ t e. absurd (ground arith);
}
look_at-Finds go n (some t) s later v =
    let look = is_ready-Answers t s v in
    take_or_go_on-Finds n t s _ (is_ready t s) look
      (λ e. later (suc n) (is_ready t s).1 look.keeps.safe)

pub find_ready-Finds : (fuel n : ℕ) (s : Scheduler) → IsSafe s → Finds s (find_ready fuel n s)
unfolding find_ready
find_ready-Finds zero n s v = record {
  keeps = record { safe = v; finished_eq = refl; arrived_eq = refl };
  ready = λ t e. absurd (ground arith);
}
find_ready-Finds (suc fuel) n s v =
    look_at-Finds (find_ready fuel) n (nth_task n s.pending_tasks) s (find_ready-Finds fuel) v

pub go_on-IsSafe :
    (w : ℕ) (s : Scheduler) (r : Option Task × Scheduler) → Finds s r → IsSafe (go_on w r)
unfolding go_on
go_on-IsSafe w s (none, s1) f = f.keeps.safe
go_on-IsSafe w s (some t, s1) f = (f.ready t refl, f.keeps.safe)

-- More finished tasks and fewer running ones keep safety.
HaveFinished-more :
    (done : List ℕ) (id : ℕ) (ps : Parents) → HaveFinished done ps → HaveFinished (id ∷ done) ps
unfolding is_in
HaveFinished-more done id no_parents h = tt
HaveFinished-more done id (parent t ps) h =
    let rest = HaveFinished-more done id ps h.1 in (ground arith, rest)

IsReady-more :
    (done arrived : List ℕ) (id : ℕ) (t : Task)
    → IsReady done arrived t
    → IsReady (id ∷ done) arrived t
IsReady-more done arrived id (task cpu_task j ps) h = HaveFinished-more done id ps h
IsReady-more done arrived id (task message_task j ps) h = h

IsReady-arrived :
    (done arrived : List ℕ) (id : ℕ) (t : Task)
    → IsReady done arrived t
    → IsReady done (id ∷ arrived) t
unfolding is_in
IsReady-arrived done arrived id (task cpu_task j ps) h = h
IsReady-arrived done arrived id (task message_task j ps) h = ground arith

AreReady-more :
    (done arrived : List ℕ) (id : ℕ) (rs : List (ℕ × Task))
    → AreReady done arrived rs
    → AreReady (id ∷ done) arrived rs
AreReady-more done arrived id [] a = tt
AreReady-more done arrived id ((w, t) ∷ rs) a =
    (IsReady-more done arrived id t a.0, AreReady-more done arrived id rs a.1)

pub AreReady-arrived :
    (done arrived : List ℕ) (id : ℕ) (rs : List (ℕ × Task))
    → AreReady done arrived rs
    → AreReady done (id ∷ arrived) rs
AreReady-arrived done arrived id [] a = tt
AreReady-arrived done arrived id ((w, t) ∷ rs) a =
    (IsReady-arrived done arrived id t a.0, AreReady-arrived done arrived id rs a.1)

pub without_worker-AreReady :
    (done arrived : List ℕ) (w : ℕ) (rs : List (ℕ × Task))
    → AreReady done arrived rs
    → AreReady done arrived (without_worker w rs)
unfolding without_worker
without_worker-AreReady done arrived w [] a = tt
without_worker-AreReady done arrived w ((v, t) ∷ rs) a =
    let rest = without_worker-AreReady done arrived w rs a.1 in
    elim (Bool-cases (v == w)) [ inl same ↦ rw same rest | inr other ↦ rw other (a.0, rest) ]

pub finish-IsSafe : (b : Bool) (id : ℕ) (s : Scheduler) → IsSafe s → IsSafe (finish b id s)
finish-IsSafe false id s v = v
finish-IsSafe true id s v = AreReady-more s.finished s.arrived id s.running v
