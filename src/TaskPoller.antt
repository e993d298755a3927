-- ===== src/TaskPoller.antt =====
-- internal/taskpoller/poller.go: the tasks that are watched until they stop, and the callbacks that are
-- told of it. A callback is known by the number under which Subscribe stores it; what a method starts
-- with `go` is in the list of Spawn that it returns. One tick of `monitor` is a function of what
-- GetTaskStatus answers.
pub mod Watching
pub mod Tests
use pvetui.Base.{
  ℕ, suc, ◌+◌, List, [], ◌∷◌, Option, none, some, Bool, true, false, Str, str, str_eq, ◌==◌, ◌++◌,
  if◌then◌else◌, Dict, get, put, delete, ℤ, int_eq, is_some, map,
}

pub record TaskInfo : Type 0 where
  upid : Str
  node : Str
  vmid : ℤ
  status : Str
  exit_status : Str
  start_time : ℕ

-- The numbers of the callbacks, in the order in which `range` meets them.
pub record Poller : Type 0 where
  tasks : Dict TaskInfo
  callbacks : List ℕ
  next_callback_id : ℕ
  cancelled : Bool

pub data Spawn : Type 0 where
  callback : ℕ → TaskInfo → Spawn
  monitor : TaskInfo → Spawn

unfoldable pub new : Poller
new = record { tasks = []; callbacks = []; next_callback_id = 0; cancelled = false }

unfoldable pub stop : Poller → Poller
stop p = record p { cancelled = true }

unfoldable pub notify_listeners : List ℕ → TaskInfo → List Spawn
notify_listeners [] task = []
notify_listeners (id ∷ ids) task = callback id task ∷ notify_listeners ids task

abbrev pub new_task : Str → Str → ℤ → ℕ → TaskInfo
new_task upid node vmid now = record {
  upid = upid;
  node = node;
  vmid = vmid;
  status = str "running";
  exit_status = [];
  start_time = now;
}

unfoldable pub add_task : Poller → Str → Str → ℤ → ℕ → Poller × List Spawn
unfolding get put notify_listeners
add_task p upid node vmid now =
    let task = new_task upid node vmid now in
    if is_some (get upid p.tasks) then (p, []) else (
      record p { tasks = put upid task p.tasks },
      notify_listeners p.callbacks task ++ monitor task ∷ [],
    )

-- What GetTaskStatus answers: an error, or the status and the exit status.
pub data StatusAnswer : Type 0 where
  unavailable : StatusAnswer
  reported : Str → Str → StatusAnswer

-- The branch of the monitor's `select` that a tick opens; the other one, of a cancelled poller, returns
-- at once. The Boolean says whether the monitor goes on.
unfoldable pub monitor_tick : Poller → TaskInfo → StatusAnswer → Poller × List Spawn × Bool
unfolding delete notify_listeners
monitor_tick p task unavailable = (p, [], true)
monitor_tick p task (reported status exit) =
    let task' = record task { status = str "stopped"; exit_status = exit } in
    if str_eq status (str "stopped")
    then (record p { tasks = delete task.upid p.tasks }, notify_listeners p.callbacks task', false)
    else (p, [], true)

unfoldable pub subscribe : Poller → Poller × ℕ
subscribe p = (
  record p {
    callbacks = p.callbacks ++ p.next_callback_id ∷ [];
    next_callback_id = p.next_callback_id + 1;
  },
  p.next_callback_id,
)

unfoldable pub remove_callback : ℕ → List ℕ → List ℕ
remove_callback id [] = []
remove_callback id (j ∷ ids) =
    let rest = remove_callback id ids in if j == id then rest else j ∷ rest

-- The function that Subscribe returns.
unfoldable pub unregister : Poller → ℕ → Poller
unfolding remove_callback
unregister p id = record p { callbacks = remove_callback id p.callbacks }

abbrev pub tasks_of : ℤ → Dict TaskInfo → List TaskInfo
tasks_of vmid [] = []
tasks_of vmid ((upid, t) ∷ m) =
    let rest = tasks_of vmid m in if int_eq t.vmid vmid then t ∷ rest else rest

unfoldable pub get_active_tasks_for_vm : Poller → ℤ → List TaskInfo
unfolding int_eq
get_active_tasks_for_vm p vmid = tasks_of vmid p.tasks
