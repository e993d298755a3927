-- ===== src/TaskManager/Tests.antt =====
-- Runs of the manager at concrete inputs, and the theorems applied there.
use pvetui.Base.{
  All, ℕ, List, [], ◌∷◌, ◌++◌, Option, none, some, true, false, Str, str, str_eq, ◌≡◌, refl, pos,
  get, inl, if◌then◌else◌, tail, Elem, ◌≢◌, put, itoa,
}
use pvetui.TaskManager.{
  TaskManager, Task, TaskStatus, key_of, task_key, queue_at, enqueue, internal_task, complete_task,
  dequeue_next_startable,
}
use pvetui.TaskManager.Dequeue.{Dequeues, dequeue-Dequeues}
use pvetui.TaskManager.Lanes.{lane, active_at, lane-complete_task}
use pvetui.TaskManager.Invariant.{IsValid}
use pvetui.TaskManager.Enqueueing.{lane-enqueue}
use pvetui.TaskManager.Runner.{Event, enqueues, run}
use pvetui.TaskManager.Runner.Sound.{IsSound}
use pvetui.TaskManager.Runner.Reachable.{initial, run-IsSound}
use pvetui.TaskManager.Runner.Progress.{IsOf, Advances, run-progress}
use pvetui.TaskManager.Cancel.{cancel_task, CancelError}
use pvetui.TaskManager.Cancel.Laws.{Removes, Lacks, cancel_task_queued}
use pvetui.TaskManager.Cancel.Active.{CancelsActive, cancel_task_active}

abbrev task : Str → Str → ℕ → Task
task id node vmid = record {
  id = id;
  kind = str "Start";
  description = str "Start guest";
  status = TaskStatus.queued;
  progress = pos 0;
  created_at = 0;
  started_at = 0;
  finished_at = 0;
  error = none;
  target_vmid = pos vmid;
  target_node = node;
  target_name = str "guest";
  upid = [];
  on_complete = true;
}

abbrev first : Task
first = task (str "a") (str "n1") 100

abbrev second : Task
second = task (str "b") (str "n1") 100

abbrev third : Task
third = task (str "c") (str "n2") 7

-- With a cap of one, the first task runs and the other two wait.
abbrev arrivals : List Event
arrivals =
    enqueues (some first) [] 1 ∷ enqueues (some second) [] 2 ∷ enqueues (some third) [] 3 ∷ []

abbrev loaded : TaskManager
loaded = (run (initial true (pos 1)) arrivals).tm

abbrev key1 : Str
key1 = str "n1/100"

abbrev ids : List Task → List Str
ids [] = []
ids (t ∷ q) = t.id ∷ ids q

loaded_lanes :
    (ids (active_at loaded key1) ≡ str "a" ∷ [])
    × (ids (queue_at loaded key1) ≡ str "b" ∷ [])
    × (ids (lane loaded (str "n2/7")) ≡ str "c" ∷ [])
unfolding run lane queue_at task_key enqueue str_eq get put itoa
loaded_lanes = (refl, refl, refl)

loaded-IsValid : IsValid loaded
loaded-IsValid = (run-IsSound true (pos 1) arrivals).valid

run-IsSound_example : IsSound (run (initial true (pos 1)) arrivals)
run-IsSound_example = run-IsSound true (pos 1) arrivals

loaded_runs : loaded.stopped ≡ false
unfolding run enqueue str_eq task_key get put itoa
loaded_runs = refl

loaded_waits : queue_at loaded key1 ≢ []
unfolding run queue_at enqueue str_eq task_key get put itoa
loaded_waits e = cc

run-progress_example :
    (j : Str) × (es : List Event) × All (IsOf j) es
    × Advances
        (run (initial true (pos 1)) arrivals).tm
        (run (run (initial true (pos 1)) arrivals) es).tm
        j
run-progress_example = run-progress true (pos 1) arrivals key1 loaded_runs loaded_waits

lane-enqueue_example : lane (enqueue loaded (some second) (str "u") 9).0 key1 ≡ (
    if str_eq (key_of second) key1
    then lane loaded key1 ++ internal_task second (str "u") 9 ∷ []
    else lane loaded key1)
lane-enqueue_example = lane-enqueue loaded second (str "u") 9 key1 loaded-IsValid

-- The active task, as the manager holds it.
abbrev running_first : Task
running_first = record first { created_at = 1 }

first_active : get (key_of running_first) loaded.active_tasks ≡ some running_first
unfolding run enqueue str_eq task_key get put itoa
first_active = refl

lane-complete_task_example :
    lane (complete_task loaded running_first TaskStatus.completed none 5).0 key1
    ≡ (if str_eq (key_of running_first) key1 then tail (lane loaded key1) else lane loaded key1)
lane-complete_task_example =
    lane-complete_task loaded running_first TaskStatus.completed none 5 key1 first_active

dequeue-Dequeues_example : Dequeues loaded key1 (dequeue_next_startable loaded key1)
dequeue-Dequeues_example = dequeue-Dequeues loaded key1 named
  where
    named : key1 ≢ []
    named = λ e. cc

abbrev unreachable : Str → Str → Option Str
unreachable node upid = some (str "timeout")

abbrev waiting_second : Task
waiting_second = record second { created_at = 2 }

second_waits : Elem waiting_second (queue_at loaded key1)
unfolding run queue_at enqueue str_eq task_key get put itoa
second_waits = inl refl

cancel_task_queued_example :
    (key : Str) × (q' : List Task) × (t : Task) × Removes (str "b") (queue_at loaded key) q' t
    × ((cancel_task loaded unreachable (str "b")).2 ≡ none)
    × ((cancel_task loaded unreachable (str "b")).0.active_tasks ≡ loaded.active_tasks)
    × ((j : Str)
        → lane (cancel_task loaded unreachable (str "b")).0 j
          ≡ (if str_eq key j then active_at loaded j ++ q' else lane loaded j))
cancel_task_queued_example =
    cancel_task_queued loaded unreachable (str "b") key1 waiting_second loaded-IsValid second_waits
      refl

-- One task only: nothing is queued anywhere.
abbrev lone : TaskManager
lone = (run (initial true (pos 1)) (enqueues (some first) [] 1 ∷ [])).tm

lone_lacks : (key : Str) → Lacks (str "a") (queue_at lone key)
unfolding run queue_at enqueue get
lone_lacks key t m = absurd m

cancel_task_active_example :
    (error : Option CancelError) × (cancel_task lone unreachable (str "a") ≡ (lone, [], error))
    × CancelsActive lone unreachable (str "a") error
cancel_task_active_example = cancel_task_active lone unreachable (str "a") lone-IsValid lone_lacks
  where
    lone-IsValid : IsValid lone
    lone-IsValid = (run-IsSound true (pos 1) (enqueues (some first) [] 1 ∷ [])).valid
