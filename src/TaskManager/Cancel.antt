-- ===== src/TaskManager/Cancel.antt =====
-- CancelTask and the read methods of internal/taskmanager/manager.go.
pub mod Laws
pub mod Active
use pvetui.Base.{
  ℕ, List, [], ◌∷◌, ◌++◌, Option, none, some, Bool, true, false, Str, str, str_eq, Dict, get, put,
  delete, if◌then◌else◌, ℤ, int_eq, filter,
}
use pvetui.TaskManager.{
  TaskManager, Task, TaskStatus, Spawn, key_of, task_key, notifications, store_queue,
}

-- queue[:i] and queue[i+1:] round the first task with the id, and that task.
pub remove_id : Str → List Task → Option (List Task × Task)
remove_id id [] = none
remove_id id (t ∷ q) =
    let later = remove_id id q in
    if str_eq t.id id
    then some (q, t)
    else (elim later [ none ↦ none | some (q', u) ↦ some (t ∷ q', u) ])

-- The first queue of the `range` loop that holds the id: its key, what is left of it, and the task.
pub find_queued : Str → Dict (List Task) → Option (Str × List Task × Task)
unfolding remove_id
find_queued id [] = none
find_queued id ((key, q) ∷ m) =
    let later = find_queued id m in
    elim (remove_id id q) [ none ↦ later | some (q', t) ↦ some (key, q', t) ]

pub find_active : Str → Dict Task → Option Task
find_active id [] = none
find_active id ((key, t) ∷ m) = if str_eq t.id id then some t else find_active id m

pub data CancelError : Type 0 where
  -- "task is starting, cannot cancel yet"
  starting : CancelError
  -- "task not found"
  not_found : CancelError
  -- from the client resolver or from StopTask
  remote : Str → CancelError

-- none is Go's nil error.
abbrev pub remote_error : Option Str → Option CancelError
remote_error none = none
remote_error (some e) = some (remote e)

-- `stop_task node upid` is what resolving the client and StopTask answer.
pub cancel_active : (Str → Str → Option Str) → Option Task → Option CancelError
cancel_active stop_task none = some not_found
cancel_active stop_task (some task) =
    if str_eq task.upid []
    then some starting
    else remote_error (stop_task task.target_node task.upid)

pub cancel_found :
    TaskManager
    → (Str → Str → Option Str)
    → Str
    → Option (Str × List Task × Task)
    → TaskManager × List Spawn × Option CancelError
unfolding cancel_active find_active notifications store_queue
cancel_found tm stop_task id (some (key, q, t)) =
    (record tm { queue = store_queue key q tm.queue }, notifications tm, none)
cancel_found tm stop_task id none =
    (tm, [], cancel_active stop_task (find_active id tm.active_tasks))

-- The cancelled task leaves the manager; only the caller's copy shows its last status.
unfoldable pub cancel_task :
    TaskManager → (Str → Str → Option Str) → Str → TaskManager × List Spawn × Option CancelError
unfolding cancel_found find_queued
cancel_task tm stop_task id = cancel_found tm stop_task id (find_queued id tm.queue)

find_vmid : ℤ → Dict Task → Option Task
find_vmid vmid [] = none
find_vmid vmid ((key, t) ∷ m) = if int_eq t.target_vmid vmid then some t else find_vmid vmid m

pub get_active_task : TaskManager → ℤ → Option Task
unfolding find_vmid
get_active_task tm vmid = find_vmid vmid tm.active_tasks

pub get_active_task_for_vm : TaskManager → Str → ℤ → Option Task
get_active_task_for_vm tm node vmid = get (task_key node vmid) tm.active_tasks

abbrev values {ℓ} : {V : Type ℓ} → Dict V → List V
values [] = []
values ((k, v) ∷ m) = v ∷ values m

abbrev concat {ℓ} : {V : Type ℓ} → List (List V) → List V
concat [] = []
concat (q ∷ qs) = q ++ concat qs

pub get_all_tasks : TaskManager → List Task
get_all_tasks tm = values tm.active_tasks ++ concat (values tm.queue)
