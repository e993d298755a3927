-- ===== src/TaskManager/Runner/Matching.antt =====
-- Starting a task and the runners that match the active tasks.
use pvetui.Base.{
  ℕ, [], ◌∷◌, ◌++◌, Option, none, some, Bool, false, Str, str, str_eq, str_eq_iff, Dict, get, put,
  delete, ◌≡◌, refl, arith, get-put, get-delete, length-put, put-Distinct, length, is_some,
  Bool-cases, Option-cases, Distinct, delete-Distinct, delete-none, if◌then◌else◌, true, sym, ap,
  ◌∙◌, ◌||◌, ◌&&◌, not, inl, inr,
}
use pvetui.TaskManager.{
  TaskManager, Task, TaskStatus, key_of, notifications, queue_at, callback_of, runner_of, started,
}
use pvetui.TaskManager.Dequeue.{Dequeues, full, nothing, starts}
use pvetui.TaskManager.Invariant.{IsValid, IsReleased, complete_task-IsValid}
use pvetui.TaskManager.Runner.{
  Phase, end_runner, spawned, Reply, unresolved, unavailable, reported, begin_task, exit_status_of,
  operation_returned, poll, start_runners,
}

-- Rewriting the active entry of a lane by a task with the same key keeps the invariant.
pub put_active-IsValid :
    (tm : TaskManager) (old new : Task)
    → IsValid tm
    → get (key_of old) tm.active_tasks ≡ some old
    → key_of new ≡ key_of old
    → IsValid (record tm { active_tasks = put (key_of old) new tm.active_tasks })
unfolding queue_at
put_active-IsValid tm old new v e same = record {
  active_distinct = put-Distinct (key_of old) new tm.active_tasks v.active_distinct;
  queue_distinct = v.queue_distinct;
  positive = v.positive;
  bounded = ground (arith, same_length, v.bounded);
  placed = λ k u h.
      ground (
        arith,
        get-put (key_of old) k new tm.active_tasks,
        str_eq_iff (key_of old) k,
        v.placed k u,
      );
  queue_placed = v.queue_placed;
  no_empty = v.no_empty;
  busy = λ room k h.
      v.busy (ground (arith, same_length)) k
        (ground (arith, get-put (key_of old) k new tm.active_tasks));
}
  where
    same_length : length (put (key_of old) new tm.active_tasks) ≡ length tm.active_tasks
    same_length = ground (arith, length-put (key_of old) new tm.active_tasks)

module _ (tm : TaskManager) (task : Task) (v : IsValid tm)
    (active : get (key_of task) tm.active_tasks ≡ some task) where
  begin_task-IsValid : (now : ℕ) → IsValid (begin_task tm task now).0
  unfolding begin_task
  begin_task-IsValid now = put_active-IsValid tm task _ v active refl

  operation_returned-IsValid :
      (upid : Str) (err : Option Str) (now : ℕ)
      → IsValid (operation_returned tm task upid err now).0
  unfolding operation_returned
  operation_returned-IsValid upid (some e) now =
      complete_task-IsValid tm task TaskStatus.failed (some e) now v active
  operation_returned-IsValid [] none now =
      complete_task-IsValid tm task TaskStatus.completed none now v active
  operation_returned-IsValid (c ∷ upid) none now = put_active-IsValid tm task _ v active refl

  poll-IsValid : (reply : Reply) (now : ℕ) → IsValid (poll tm task reply now).0
  unfolding poll
  poll-IsValid unresolved now = v
  poll-IsValid unavailable now = v
  poll-IsValid (reported status exit) now = elim (Bool-cases (str_eq status (str "stopped"))) [
    | inl y ↦
        rw y (
          complete_task-IsValid tm task (exit_status_of exit).0 (exit_status_of exit).1 now v
            active)
    | inr n ↦ rw n v
  ]

-- Which runners the spawned goroutines of a completion are.
pub start_runners_complete :
    (tm : TaskManager) (task : Task) (err : Option Str) (next : Option Task) (runners : Dict Phase)
    → start_runners (callback_of task err ++ notifications tm ++ runner_of next) runners
      ≡ start_runners (runner_of next) runners
unfolding notifications
start_runners_complete tm task err next runners = ground arith

-- Where no two runners have one key, the end of the first runner with a key leaves none with it.
pub end_runner-delete :
    (key : Str) (runners : Dict Phase)
    → Distinct runners
    → end_runner key runners ≡ delete key runners
unfolding end_runner delete get
end_runner-delete key [] d = refl
end_runner-delete key ((k, p) ∷ runners) d = elim (Bool-cases (str_eq k key)) [
  | inl y ↦ rw y (sym (delete-none key runners (rw ((str_eq_iff k key).0 y) at d.0)))
  | inr n ↦ rw (n, end_runner-delete key runners d.1) refl
]

pub start_runners-notifications :
    (tm : TaskManager) (runners : Dict Phase) → start_runners (notifications tm) runners ≡ runners
unfolding notifications
start_runners-notifications tm runners = ground arith

-- A runner more.
pub get-cons :
    (k j : Str) (p : Phase) (runners : Dict Phase)
    → get j ((k, p) ∷ runners) ≡ (if str_eq k j then some p else get j runners)
unfolding get
get-cons k j p runners = refl

-- Where every runner has an active task, a lane without one has no runner.
pub idle_runner :
    (active : Dict Task) (runners : Dict Phase) (key : Str)
    → (is_some (get key runners) ≡ true → is_some (get key active) ≡ true)
    → get key active ≡ none
    → get key runners ≡ none
idle_runner active runners key owned e = elim (Option-cases (get key runners)) [
  | inl n ↦ n
  | inr (p, there) ↦ absurd (clash (sym (ap is_some e) ∙ owned (ap is_some there)))
]
  where
    clash : false ≡ true → ⊥
    clash q = cc

-- The next task of a completion begins where no runner is.
pub Dequeues-Distinct :
    (tm : TaskManager) (lost : Str) (runners : Dict Phase) (r : TaskManager × Option Task)
    → Distinct runners
    → ((j : Str) → is_some (get j runners) ≡ true → is_some (get j tm.active_tasks) ≡ true)
    → IsReleased (record tm { active_tasks = delete lost tm.active_tasks }) lost
    → Dequeues (record tm { active_tasks = delete lost tm.active_tasks }) lost r
    → Distinct (start_runners (runner_of r.1) (delete lost runners))
Dequeues-Distinct tm lost runners _ d owned v (full _) = delete-Distinct lost runners d
Dequeues-Distinct tm lost runners _ d owned v (nothing _ _) = delete-Distinct lost runners d
Dequeues-Distinct tm lost runners _ d owned v (starts key next rest _ idle head _ _) = (
  rw (v.queue_placed key next (rw head (inl refl))) (
      idle_runner (delete lost tm.active_tasks) (delete lost runners) key
        (ground
          (arith, get-delete lost key tm.active_tasks, get-delete lost key runners, owned key))
        idle),
  delete-Distinct lost runners d,
)

-- The same lanes gain and lose a runner and an active task.
pub record Matches (a a' : Dict Task) (r r' : Dict Phase) (lost : Str) : Type 0 where
  pub gains : Str → Bool
  pub tasks : (j : Str) → is_some (get j a') ≡ gains j || (not (str_eq lost j) && is_some (get j a))
  pub phases :
      (j : Str) → is_some (get j r') ≡ gains j || (not (str_eq lost j) && is_some (get j r))

pub Dequeues-Matches :
    (tm : TaskManager) (lost : Str) (runners : Dict Phase) (r : TaskManager × Option Task)
    → IsReleased (record tm { active_tasks = delete lost tm.active_tasks }) lost
    → Dequeues (record tm { active_tasks = delete lost tm.active_tasks }) lost r
    → Matches tm.active_tasks r.0.active_tasks runners
        (start_runners (runner_of r.1) (delete lost runners))
        lost
Dequeues-Matches tm lost runners _ v (full _) = record {
  gains = λ _. false;
  tasks = λ j. ground (arith, get-delete lost j tm.active_tasks);
  phases = λ j. ground (arith, get-delete lost j runners);
}
Dequeues-Matches tm lost runners _ v (nothing _ _) = record {
  gains = λ _. false;
  tasks = λ j. ground (arith, get-delete lost j tm.active_tasks);
  phases = λ j. ground (arith, get-delete lost j runners);
}
Dequeues-Matches tm lost runners _ v (starts key next rest _ _ head _ _) = record {
  gains = λ j. str_eq key j;
  tasks = λ j.
      unfold started in
      ground (
        arith,
        get-put key j next (delete lost tm.active_tasks),
        get-delete lost j tm.active_tasks,
      );
  phases = λ j.
      rw (v.queue_placed key next (rw head (inl refl)))
        (ground (arith, get-cons key j spawned (delete lost runners), get-delete lost j runners));
}
