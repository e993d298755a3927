-- ===== src/TaskManager/Runner/Reachable.antt =====
-- Every state that the manager and its runners reach.
use pvetui.Base.{
  ℕ, suc, zero, ◌<◌, List, [], ◌∷◌, Option, none, some, Bool, true, false, Str, str_eq_refl, Dict,
  get, ◌≡◌, ◌≢◌, refl, arith, get-put, length, is_some, Bool-cases, ℤ, pos, negsuc, inl, inr, ltb,
  ltb→lt, lt→ltb, Option-cases,
}
use pvetui.TaskManager.{
  TaskManager, Task, key_of, queue_at, new_task_manager_with_max_running, clamp_max_running,
  enqueue_task, internal_task, can_start,
}
use pvetui.TaskManager.Invariant.{IsValid}
use pvetui.TaskManager.Enqueueing.{enqueue_task-IsValid}
use pvetui.TaskManager.Runner.{
  spawned, System, Event, enqueues, cancels, begins, returns, polls, stops, quits, step, run,
  start_runners,
}
use pvetui.TaskManager.Cancel.Laws.{cancel_task-active, cancel_task-IsValid}
use pvetui.TaskManager.Runner.Matching.{get-cons, idle_runner, start_runners-notifications}
use pvetui.TaskManager.Runner.Sound.{
  IsSound, begin_runner-IsSound, return_runner-IsSound, poll_runner-IsSound, quit_runner-IsSound,
}

enqueue_task-IsSound :
    (s : System) (t : Task)
    → IsSound s
    → let r = enqueue_task s.tm t in
      IsSound (record { tm = r.0; runners = start_runners r.1 s.runners })
unfolding enqueue_task
enqueue_task-IsSound s t v = elim (Bool-cases (can_start s.tm (key_of t))) [
  | inl y ↦
      rw (y, start_runners-notifications s.tm s.runners)
        (record {
          valid = rw y at valid;
          single = (
            idle_runner s.tm.active_tasks s.runners (key_of t) (v.owned (key_of t)) (idle y),
            v.single,
          );
          owned = λ j h. ground (
            arith,
            get-put (key_of t) j t s.tm.active_tasks,
            get-cons (key_of t) j spawned s.runners,
            v.owned j,
          );
          manned = λ running j h. ground (
            arith,
            get-put (key_of t) j t s.tm.active_tasks,
            get-cons (key_of t) j spawned s.runners,
            v.manned running j,
          );
        })
  | inr n ↦
      rw (n, start_runners-notifications s.tm s.runners)
        (record { valid = rw n at valid; single = v.single; owned = v.owned; manned = v.manned })
]
  where
    valid : IsValid (enqueue_task s.tm t).0
    valid = enqueue_task-IsValid s.tm t v.valid

    idle : can_start s.tm (key_of t) ≡ true → get (key_of t) s.tm.active_tasks ≡ none
    idle y = elim (Option-cases (get (key_of t) s.tm.active_tasks)) [
      | inl e ↦ e
      | inr (u, e) ↦ ground (arith, e, y)
    ]

enqueues-IsSound :
    (s : System) (task : Option Task) (fresh : Str) (now : ℕ)
    → IsSound s
    → IsSound (step s (enqueues task fresh now))
unfolding step
enqueues-IsSound s none fresh now v = v
enqueues-IsSound s (some task) fresh now v = enqueue_task-IsSound s (internal_task task fresh now) v

stops-IsSound : (s : System) → IsSound s → IsSound (step s stops)
unfolding step queue_at
stops-IsSound s v = record {
  valid = record {
    active_distinct = v.valid.active_distinct;
    queue_distinct = v.valid.queue_distinct;
    positive = v.valid.positive;
    bounded = v.valid.bounded;
    placed = v.valid.placed;
    queue_placed = v.valid.queue_placed;
    no_empty = v.valid.no_empty;
    busy = v.valid.busy;
  };
  single = v.single;
  owned = v.owned;
  manned = λ running j h. cc (running);
}

-- Cancelling changes neither what is active nor the runners.
cancels-IsSound :
    (s : System) (id : Str) (stop_task : Str → Str → Option Str)
    → IsSound s
    → IsSound (step s (cancels id stop_task))
unfolding step
cancels-IsSound s id stop_task v =
    let (active, stopped) = cancel_task-active s.tm stop_task id in
    record {
      valid = cancel_task-IsValid s.tm stop_task id v.valid;
      single = v.single;
      owned = rw active v.owned;
      manned = rw (active, stopped) v.manned;
    }

pub step-IsSound : (s : System) (e : Event) → IsSound s → IsSound (step s e)
unfolding step
step-IsSound s (enqueues task fresh now) v = enqueues-IsSound s task fresh now v
step-IsSound s (cancels id stop_task) v = cancels-IsSound s id stop_task v
step-IsSound s (begins key now) v = begin_runner-IsSound s key now v _ _ refl
step-IsSound s (returns key upid err now) v = return_runner-IsSound s key now v upid err _ _ refl
step-IsSound s (polls key reply now) v = poll_runner-IsSound s key now v reply _ _ refl refl
step-IsSound s stops v = stops-IsSound s v
step-IsSound s (quits key) v = quit_runner-IsSound s key s.tm.stopped _ refl v

abbrev pub initial : Bool → ℤ → System
initial notifies max_running = record {
  tm = new_task_manager_with_max_running notifies max_running;
  runners = [];
}

clamp_max_running-pos : (max_running : ℤ) → 0 < clamp_max_running max_running
unfolding clamp_max_running
clamp_max_running-pos (pos zero) = omega arith
clamp_max_running-pos (pos (suc n)) = omega arith
clamp_max_running-pos (negsuc n) = omega arith

initial-IsSound : (notifies : Bool) (max_running : ℤ) → IsSound (initial notifies max_running)
unfolding new_task_manager_with_max_running queue_at get
initial-IsSound notifies max_running = record {
  valid = record {
    active_distinct = tt;
    queue_distinct = tt;
    positive = clamp_max_running-pos max_running;
    bounded = omega arith;
    placed = λ key t e. cc;
    queue_placed = λ key t e. absurd e;
    no_empty = λ key e. cc;
    busy = λ room key e. refl;
  };
  single = tt;
  owned = λ key e. e;
  manned = λ running key e. e;
}

run-IsSound_from : (s : System) (es : List Event) → IsSound s → IsSound (run s es)
unfolding run
run-IsSound_from s [] v = v
run-IsSound_from s (e ∷ es) v = run-IsSound_from (step s e) es (step-IsSound s e v)

-- Whatever the configured cap, and whatever is enqueued, cancelled, and returned by operations and by
-- polls, in any interleaving, with a stop at any point: no more tasks than the cap are active, each under
-- its own key; no two runner goroutines have tasks of one node and guest; below the cap no lane waits
-- without an active task; the task of every runner is active, and until the stop every active task has a
-- runner.
pub run-IsSound :
    (notifies : Bool) (max_running : ℤ) (es : List Event)
    → IsSound (run (initial notifies max_running) es)
run-IsSound notifies max_running es =
    run-IsSound_from (initial notifies max_running) es (initial-IsSound notifies max_running)

pub first_active : (m : Dict Task) → 0 < length m → (j : Str) × (is_some (get j m) ≡ true)
unfolding get
first_active [] h = elim h [ ]
first_active ((j, t) ∷ m) h = (j, rw (str_eq_refl j))

pub some_active :
    (tm : TaskManager) (key : Str) → IsValid tm → queue_at tm key ≢ [] → 0 < length tm.active_tasks
some_active tm key v waits = elim (Bool-cases (ltb 0 (length tm.active_tasks))) [
  | inl y ↦ ltb→lt _ _ y
  | inr n ↦ absurd (waits (v.busy (ground arith) key (none_there tm.active_tasks n)))
]
  where
    none_there : (m : Dict Task) → ltb 0 (length m) ≡ false → get key m ≡ none
    none_there [] h = unfold get in refl
    none_there (e ∷ m) h = cc (h, lt→ltb 0 (suc (length m)) (omega arith))
