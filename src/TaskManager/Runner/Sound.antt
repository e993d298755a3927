-- ===== src/TaskManager/Runner/Sound.antt =====
-- The invariant of the manager with its runners, through every event.
use pvetui.Base.{
  ℕ, [], ◌∷◌, Option, none, some, Bool, true, false, Str, str, str_eq, str_eq_iff, Dict, get, put,
  delete, Distinct, put-Distinct, delete-Distinct, ◌≡◌, refl, arith, get-put, get-delete, is_some,
  Bool-cases, inl, inr, sym, ◌∙◌,
}
use pvetui.TaskManager.{
  TaskManager, Task, TaskStatus, key_of, notifications, complete_task, started,
}
use pvetui.TaskManager.Dequeue.{Dequeues, full, nothing, starts, dequeue-Dequeues}
use pvetui.TaskManager.Lanes.{key_of-ne}
use pvetui.TaskManager.Invariant.{IsValid, delete-IsReleased, complete_task-IsValid}
use pvetui.TaskManager.Runner.{
  Phase, spawned, executing, polling, Reply, unresolved, unavailable, reported, exit_status_of,
  operation_returned, poll, start_runners, advance, System, begin_runner, return_runner,
  poll_runner, quit_runner,
}
use pvetui.TaskManager.Runner.Matching.{
  put_active-IsValid, start_runners_complete, Dequeues-Matches, Dequeues-Distinct,
  end_runner-delete, start_runners-notifications, Matches,
}

pub record IsSound (s : System) : Type 0 where
  pub valid : IsValid s.tm
  -- no two runners have the task of one lane
  pub single : Distinct s.runners
  -- the task of every runner is active
  pub owned :
      (key : Str) → is_some (get key s.runners) ≡ true → is_some (get key s.tm.active_tasks) ≡ true
  -- until the manager is stopped every active task has a runner
  pub manned :
      s.tm.stopped ≡ false
      → (key : Str) → is_some (get key s.tm.active_tasks) ≡ true
      → is_some (get key s.runners) ≡ true

complete_task-Matches :
    (tm : TaskManager) (task : Task) (status : TaskStatus) (err : Option Str) (now : ℕ)
    (runners : Dict Phase)
    → IsValid tm
    → get (key_of task) tm.active_tasks ≡ some task
    → Matches tm.active_tasks
        (complete_task tm task status err now).0.active_tasks
        runners
        (start_runners (complete_task tm task status err now).1 (delete (key_of task) runners))
        (key_of task)
unfolding complete_task
complete_task-Matches tm task status err now runners v e =
    rw (start_runners_complete _ _ err _ (delete (key_of task) runners)) (
      Dequeues-Matches tm (key_of task) runners _ (delete-IsReleased tm (key_of task) task v e)
        (dequeue-Dequeues _ (key_of task) (key_of-ne task)))

stopped-Dequeues :
    (tm : TaskManager) (lost : Str) (r : TaskManager × Option Task)
    → Dequeues tm lost r
    → r.0.stopped ≡ tm.stopped
stopped-Dequeues tm lost _ (full _) = refl
stopped-Dequeues tm lost _ (nothing _ _) = refl
stopped-Dequeues tm lost _ (starts _ _ _ _ _ _ _ _) = unfold started in refl

stopped-complete_task :
    (tm : TaskManager) (task : Task) (status : TaskStatus) (err : Option Str) (now : ℕ)
    → (complete_task tm task status err now).0.stopped ≡ tm.stopped
unfolding complete_task
stopped-complete_task tm task status err now =
    stopped-Dequeues _ (key_of task) _ (dequeue-Dequeues _ (key_of task) (key_of-ne task))

complete_task-Distinct :
    (tm : TaskManager) (task : Task) (status : TaskStatus) (err : Option Str) (now : ℕ)
    (runners : Dict Phase)
    → IsValid tm
    → get (key_of task) tm.active_tasks ≡ some task
    → Distinct runners
    → ((j : Str) → is_some (get j runners) ≡ true → is_some (get j tm.active_tasks) ≡ true)
    → Distinct
        (start_runners (complete_task tm task status err now).1 (delete (key_of task) runners))
unfolding complete_task
complete_task-Distinct tm task status err now runners v e d owned =
    rw (start_runners_complete _ _ err _ (delete (key_of task) runners)) (
      Dequeues-Distinct tm (key_of task) runners _ d owned
        (delete-IsReleased tm (key_of task) task v e)
        (dequeue-Dequeues _ (key_of task) (key_of-ne task)))

-- A runner whose task is complete ends, and the next task's runner begins.
completed-IsSound :
    (s : System) (key : Str) (task : Task) (status : TaskStatus) (err : Option Str) (now : ℕ)
    → IsSound s
    → get key s.tm.active_tasks ≡ some task
    → let r = complete_task s.tm task status err now in IsSound (advance s key (r.0, r.1, none))
completed-IsSound s key task status err now v e =
    rw (← same, end_runner-delete (key_of task) s.runners v.single)
      (record {
        single =
            complete_task-Distinct s.tm task status err now s.runners v.valid active v.single
              v.owned;
        valid = complete_task-IsValid s.tm task status err now v.valid active;
        owned = λ j h. ground (arith, m.tasks j, m.phases j, v.owned j);
        manned =
            λ running j h. ground (arith, m.tasks j, m.phases j, v.manned (sym stops ∙ running) j);
      })
  where
    same : key_of task ≡ key
    same = v.valid.placed key task e

    active : get (key_of task) s.tm.active_tasks ≡ some task
    active = rw same e

    m :
        Matches s.tm.active_tasks
          (complete_task s.tm task status err now).0.active_tasks
          s.runners
          (start_runners
            (complete_task s.tm task status err now).1
            (delete (key_of task) s.runners))
          (key_of task)
    m = complete_task-Matches s.tm task status err now s.runners v.valid active

    stops : (complete_task s.tm task status err now).0.stopped ≡ s.tm.stopped
    stops = stopped-complete_task s.tm task status err now

-- A runner that goes on has rewritten its own task.
rewritten-IsSound :
    (s : System) (key : Str) (old new : Task) (phase : Phase)
    → IsSound s
    → get key s.tm.active_tasks ≡ some old
    → key_of new ≡ key_of old
    → IsSound (
        advance s key (
          record s.tm { active_tasks = put (key_of old) new s.tm.active_tasks },
          notifications s.tm,
          some phase,
        ))
unfolding notifications
rewritten-IsSound s key old new phase v e same = rw (← here) (record {
  single =
      rw (start_runners-notifications s.tm (put (key_of old) phase s.runners))
        (put-Distinct (key_of old) phase s.runners v.single);
  valid = put_active-IsValid s.tm old new v.valid (rw here e) same;
  owned = λ j h. ground (
    arith,
    get-put (key_of old) j new s.tm.active_tasks,
    get-put (key_of old) j phase s.runners,
    v.owned j,
  );
  manned = λ running j h. ground (
    arith,
    get-put (key_of old) j new s.tm.active_tasks,
    get-put (key_of old) j phase s.runners,
    v.manned running j,
  );
})
  where
    here : key_of old ≡ key
    here = v.valid.placed key old e

module _ (s : System) (key : Str) (now : ℕ) (v : IsSound s) where
  pub begin_runner-IsSound :
      (p : Option Phase) (t : Option Task)
      → get key s.tm.active_tasks ≡ t
      → IsSound (begin_runner s key now p t)
  unfolding begin_runner
  begin_runner-IsSound (some spawned) (some task) e =
      rewritten-IsSound s key task _ executing v e refl
  begin_runner-IsSound (some spawned) none e = v
  begin_runner-IsSound (some executing) t e = v
  begin_runner-IsSound (some polling) t e = v
  begin_runner-IsSound none t e = v

  returned-IsSound :
      (upid : Str) (err : Option Str) (task : Task)
      → get key s.tm.active_tasks ≡ some task
      → IsSound (advance s key (operation_returned s.tm task upid err now))
  unfolding operation_returned
  returned-IsSound upid (some x) task e =
      completed-IsSound s key task TaskStatus.failed (some x) now v e
  returned-IsSound [] none task e = completed-IsSound s key task TaskStatus.completed none now v e
  returned-IsSound (c ∷ upid) none task e = rewritten-IsSound s key task _ polling v e refl

  pub return_runner-IsSound :
      (upid : Str) (err : Option Str) (p : Option Phase) (t : Option Task)
      → get key s.tm.active_tasks ≡ t
      → IsSound (return_runner s key upid err now p t)
  unfolding return_runner
  return_runner-IsSound upid err (some executing) (some task) e = returned-IsSound upid err task e
  return_runner-IsSound upid err (some executing) none e = v
  return_runner-IsSound upid err (some spawned) t e = v
  return_runner-IsSound upid err (some polling) t e = v
  return_runner-IsSound upid err none t e = v

  -- A poll that learns nothing leaves the runner where it was.
  waiting-IsSound :
      get key s.runners ≡ some polling → IsSound (advance s key (s.tm, [], some polling))
  waiting-IsSound at = record {
    single = put-Distinct key polling s.runners v.single;
    valid = v.valid;
    owned = λ j h.
        ground (arith, get-put key j polling s.runners, str_eq_iff key j, v.owned j, v.owned key);
    manned = λ running j h. ground (arith, get-put key j polling s.runners, v.manned running j);
  }

  polled-IsSound :
      (reply : Reply) (task : Task)
      → get key s.tm.active_tasks ≡ some task
      → get key s.runners ≡ some polling
      → IsSound (advance s key (poll s.tm task reply now))
  unfolding poll
  polled-IsSound unresolved task e at = waiting-IsSound at
  polled-IsSound unavailable task e at = waiting-IsSound at
  polled-IsSound (reported status exit) task e at =
      elim (Bool-cases (str_eq status (str "stopped"))) [
        | inl y ↦
            rw y
              (completed-IsSound s key task (exit_status_of exit).0 (exit_status_of exit).1 now v e)
        | inr n ↦ rw n (waiting-IsSound at)
      ]

  pub poll_runner-IsSound :
      (reply : Reply) (p : Option Phase) (t : Option Task)
      → get key s.runners ≡ p
      → get key s.tm.active_tasks ≡ t
      → IsSound (poll_runner s key reply now p t)
  unfolding poll_runner
  poll_runner-IsSound reply (some polling) (some task) at e = polled-IsSound reply task e at
  poll_runner-IsSound reply (some polling) none at e = v
  poll_runner-IsSound reply (some spawned) t at e = v
  poll_runner-IsSound reply (some executing) t at e = v
  poll_runner-IsSound reply none t at e = v

pub quit_runner-IsSound :
    (s : System) (key : Str) (stopped : Bool) (p : Option Phase)
    → s.tm.stopped ≡ stopped
    → IsSound s
    → IsSound (quit_runner s key stopped p)
unfolding quit_runner
quit_runner-IsSound s key true (some polling) e v =
    rw (end_runner-delete key s.runners v.single) (record {
      single = delete-Distinct key s.runners v.single;
      valid = v.valid;
      owned = λ j h. ground (arith, get-delete key j s.runners, v.owned j);
      manned = λ running j h. cc (e, running);
    })
quit_runner-IsSound s key true (some spawned) e v = v
quit_runner-IsSound s key true (some executing) e v = v
quit_runner-IsSound s key true none e v = v
quit_runner-IsSound s key false p e v = v
