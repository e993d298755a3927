-- ===== src/TaskManager/Runner.antt =====
-- runTask of internal/taskmanager/manager.go, one function for each of its lock sections, and the
-- manager together with its runner goroutines. The task of a runner is the entry that
-- `activeTasks` holds under the task's key: both are one pointer in the program.
pub mod Matching
pub mod Sound
pub mod Reachable
pub mod Progress
use pvetui.Base.{
  ℕ, List, [], ◌∷◌, ◌++◌, Option, none, some, Bool, true, false, Str, str, str_eq, Dict, get, put,
  delete, if◌then◌else◌,
}
use pvetui.TaskManager.{
  new_task_manager_with_max_running, TaskManager, Task, TaskStatus, Spawn, run_task, notify,
  completion, key_of, notifications, enqueue, complete_task,
}
use pvetui.TaskManager.Cancel.{cancel_task}

-- Where a runner goroutine stands: before its first lock section, in `Operation`, in the poll loop.
pub data Phase : Type 0 where
  spawned executing polling : Phase

-- What one round of the poll loop learns: no client, no status, or a status and an exit status.
pub data Reply : Type 0 where
  unresolved unavailable : Reply
  reported : Str → Str → Reply

-- The first lock section: the task runs.
pub begin_task : TaskManager → Task → ℕ → TaskManager × List Spawn
unfolding notifications
begin_task tm task now = (
  record tm {
    active_tasks =
        put (key_of task) (record task { status = TaskStatus.running; started_at = now })
          tm.active_tasks;
  },
  notifications tm,
)

-- After `Operation` returned an UPID and an error: the new phase is none where the runner ends.
pub operation_returned :
    TaskManager → Task → Str → Option Str → ℕ → TaskManager × List Spawn × Option Phase
unfolding complete_task notifications
operation_returned tm task upid (some e) now =
    let (tm', spawns) = complete_task tm task TaskStatus.failed (some e) now in (tm', spawns, none)
operation_returned tm task [] none now =
    let (tm', spawns) = complete_task tm task TaskStatus.completed none now in (tm', spawns, none)
operation_returned tm task (c ∷ upid) none now = (
  record tm { active_tasks = put (key_of task) (record task { upid = c ∷ upid }) tm.active_tasks },
  notifications tm,
  some polling,
)

abbrev pub exit_status_of : Str → TaskStatus × Option Str
exit_status_of exit =
    if str_eq exit (str "OK") then (TaskStatus.completed, none) else (TaskStatus.failed, some exit)

-- One tick of the poll loop.
pub poll : TaskManager → Task → Reply → ℕ → TaskManager × List Spawn × Option Phase
unfolding complete_task
poll tm task unresolved now = (tm, [], some polling)
poll tm task unavailable now = (tm, [], some polling)
poll tm task (reported status exit) now =
    let (result, err) = exit_status_of exit in
    let (tm', spawns) = complete_task tm task result err now in
    if str_eq status (str "stopped") then (tm', spawns, none) else (tm, [], some polling)

-- The manager and its runner goroutines, each with the key of its task and its phase. Nothing keeps two
-- runners from having one key: an event then concerns the first of them.
pub record System : Type 0 where
  pub tm : TaskManager
  pub runners : Dict Phase

pub data Event : Type 0 where
  enqueues : Option Task → Str → ℕ → Event
  cancels : Str → (Str → Str → Option Str) → Event
  begins : Str → ℕ → Event
  returns : Str → Str → Option Str → ℕ → Event
  polls : Str → Reply → ℕ → Event
  stops : Event
  quits : Str → Event

abbrev pub start_runners : List Spawn → Dict Phase → Dict Phase
start_runners [] runners = runners
start_runners (run_task t ∷ rest) runners = (key_of t, spawned) ∷ start_runners rest runners
start_runners (notify ∷ rest) runners = start_runners rest runners
start_runners (completion t e ∷ rest) runners = start_runners rest runners

-- The first runner with the key ends.
unfoldable pub end_runner : Str → Dict Phase → Dict Phase
end_runner key [] = []
end_runner key ((k, p) ∷ runners) =
    let rest = end_runner key runners in if str_eq k key then runners else (k, p) ∷ rest

abbrev pub set_phase : Str → Option Phase → Dict Phase → Dict Phase
set_phase key none runners = end_runner key runners
set_phase key (some p) runners = put key p runners

-- A runner has made a step: it ends or goes on, and the goroutines that it started begin.
abbrev pub advance : System → Str → TaskManager × List Spawn × Option Phase → System
advance s key (tm', spawns, phase) = record {
  tm = tm';
  runners = start_runners spawns (set_phase key phase s.runners);
}

abbrev pub continuing : Phase → TaskManager × List Spawn → TaskManager × List Spawn × Option Phase
continuing p (tm', spawns) = (tm', spawns, some p)

pub begin_runner : System → Str → ℕ → Option Phase → Option Task → System
unfolding begin_task end_runner
begin_runner s key now (some spawned) (some task) =
    advance s key (continuing executing (begin_task s.tm task now))
begin_runner s key now phase task = s

pub return_runner : System → Str → Str → Option Str → ℕ → Option Phase → Option Task → System
unfolding operation_returned end_runner
return_runner s key upid err now (some executing) (some task) =
    advance s key (operation_returned s.tm task upid err now)
return_runner s key upid err now phase task = s

pub poll_runner : System → Str → Reply → ℕ → Option Phase → Option Task → System
unfolding poll end_runner
poll_runner s key reply now (some polling) (some task) = advance s key (poll s.tm task reply now)
poll_runner s key reply now phase task = s

-- A polling runner leaves when the stop channel is closed; its task stays active.
pub quit_runner : System → Str → Bool → Option Phase → System
unfolding end_runner
quit_runner s key true (some polling) = record s { runners = end_runner key s.runners }
quit_runner s key stopped phase = s

-- An event that does not fit the state of the runner that it names changes nothing: it cannot occur.
pub step : System → Event → System
unfolding begin_runner return_runner poll_runner quit_runner enqueue cancel_task
step s (enqueues task fresh now) =
    let (tm', spawns) = enqueue s.tm task fresh now in
    record { tm = tm'; runners = start_runners spawns s.runners }
step s (cancels id stop_task) = record s { tm = (cancel_task s.tm stop_task id).0 }
step s (begins key now) = begin_runner s key now (get key s.runners) (get key s.tm.active_tasks)
step s (returns key upid err now) =
    return_runner s key upid err now (get key s.runners) (get key s.tm.active_tasks)
step s (polls key reply now) =
    poll_runner s key reply now (get key s.runners) (get key s.tm.active_tasks)
step s stops = record s { tm = record s.tm { stopped = true } }
step s (quits key) = quit_runner s key s.tm.stopped (get key s.runners)

unfoldable pub run : System → List Event → System
unfolding step new_task_manager_with_max_running
run s [] = s
run s (e ∷ es) = run (step s e) es
