-- ===== src/TaskManager.antt =====
-- internal/taskmanager/manager.go: the queue of guest operations, one lane for each node and guest.
-- A lock section is a function on the manager's state. `time.Now()`, a fresh UUID and what the
-- network answers are arguments. A goroutine that a section starts is in the list it returns.
pub mod Dequeue
pub mod Lanes
pub mod Invariant
pub mod Enqueueing
pub mod Runner
pub mod Cancel
pub mod Tests
use pvetui.Base.{
  ℕ, suc, ◌≤◌, List, [], ◌∷◌, ◌++◌, Option, none, some, Bool, true, false, not, ◌&&◌, Str, str,
  str_eq, Dict, get, put, delete, keys, ℤ, pos, negsuc, itoa, int_eq, length, filter, leb, ltb,
  if◌then◌else◌, sort_strings, is_some, ◌≡◌, refl, arith, zero, map,
}

pub data TaskStatus : Type 0 where
  queued running completed failed cancelled : TaskStatus

-- `Operation` is called by the runner and its answer is an argument there. A time of 0 is Go's zero
-- time, and `on_complete` says whether a callback is set.
pub record Task : Type 0 where
  pub id : Str
  pub kind : Str
  pub description : Str
  pub status : TaskStatus
  pub progress : ℤ
  pub created_at : ℕ
  pub started_at : ℕ
  pub finished_at : ℕ
  pub error : Option Str
  pub target_vmid : ℤ
  pub target_node : Str
  pub target_name : Str
  pub upid : Str
  pub on_complete : Bool

pub record TaskManager : Type 0 where
  pub queue : Dict (List Task)
  pub active_tasks : Dict Task
  pub max_running : ℕ
  pub update_notify : Bool
  pub stopped : Bool

-- A goroutine that a method starts.
pub data Spawn : Type 0 where
  run_task : Task → Spawn
  notify : Spawn
  completion : Task → Option Str → Spawn

abbrev pub default_max_running_tasks : ℕ
default_max_running_tasks = 3

pub clamp_max_running : ℤ → ℕ
clamp_max_running (pos (suc n)) = suc n
clamp_max_running other = default_max_running_tasks

pub new_task_manager_with_max_running : Bool → ℤ → TaskManager
unfolding clamp_max_running
new_task_manager_with_max_running notifies max_running = record {
  queue = [];
  active_tasks = [];
  max_running = clamp_max_running max_running;
  update_notify = notifies;
  stopped = false;
}

pub new_task_manager : Bool → TaskManager
unfolding new_task_manager_with_max_running
new_task_manager notifies =
    new_task_manager_with_max_running notifies (pos default_max_running_tasks)

-- fmt.Sprintf("%s/%d", node, vmid)
pub task_key : Str → ℤ → Str
task_key node vmid = node ++ b'/' ∷ itoa vmid

abbrev pub key_of : Task → Str
key_of t = task_key t.target_node t.target_vmid

-- tm.queue[key], which is the empty slice where the key is missing
abbrev pub slice_of : Option (List Task) → List Task
slice_of none = []
slice_of (some q) = q

unfoldable pub queue_at : TaskManager → Str → List Task
queue_at tm key = slice_of (get key tm.queue)

pub notifications : TaskManager → List Spawn
notifications tm = if tm.update_notify then notify ∷ [] else []

pub with_id : Task → Str → Task
with_id task fresh = if str_eq task.id [] then record task { id = fresh } else task

-- The copy that the manager keeps.
pub internal_task : Task → Str → ℕ → Task
unfolding with_id
internal_task task fresh now = record (with_id task fresh) { status = queued; created_at = now }

abbrev pub can_start : TaskManager → Str → Bool
can_start tm key =
    not (is_some (get key tm.active_tasks)) && ltb (length tm.active_tasks) tm.max_running

pub enqueue_task : TaskManager → Task → TaskManager × List Spawn
unfolding queue_at notifications
enqueue_task tm t =
    let key = key_of t in
    if can_start tm key
    then (record tm { active_tasks = put key t tm.active_tasks }, run_task t ∷ notifications tm)
    else (record tm { queue = put key (queue_at tm key ++ t ∷ []) tm.queue }, notifications tm)

-- A nil task is ignored.
pub enqueue : TaskManager → Option Task → Str → ℕ → TaskManager × List Spawn
unfolding enqueue_task internal_task
enqueue tm none fresh now = (tm, [])
enqueue tm (some task) fresh now = enqueue_task tm (internal_task task fresh now)

-- tm.queue[key] = queue, and the key goes where the slice is empty
pub store_queue : Str → List Task → Dict (List Task) → Dict (List Task)
store_queue key [] m = delete key (put key [] m)
store_queue key (t ∷ rest) m = put key (t ∷ rest) m

-- The manager in which the head `next` of a queue has become active.
pub started : TaskManager → Str → Task → List Task → TaskManager
unfolding store_queue
started tm key next rest = record tm {
  queue = store_queue key rest tm.queue;
  active_tasks = put key next tm.active_tasks;
}

pub start_front : TaskManager → Str → Bool → List Task → Option (TaskManager × Task)
unfolding started
start_front tm key true q = none
start_front tm key false [] = none
start_front tm key false (next ∷ rest) = some (started tm key next rest, next)

-- the closure of `dequeueNextStartableLocked`
pub try_start_for_key : TaskManager → Str → Option (TaskManager × Task)
unfolding start_front queue_at
try_start_for_key tm key = start_front tm key (is_some (get key tm.active_tasks)) (queue_at tm key)

abbrev pub or_else {ℓ} : {A : Type ℓ} → Option A → Option A → Option A
or_else (some a) o = some a
or_else none o = o

pub try_keys : TaskManager → List Str → Option (TaskManager × Task)
unfolding try_start_for_key
try_keys tm [] = none
try_keys tm (key ∷ rest) = or_else (try_start_for_key tm key) (try_keys tm rest)

pub try_preferred : TaskManager → Str → Option (TaskManager × Task)
unfolding try_start_for_key
try_preferred tm key = if str_eq key [] then none else try_start_for_key tm key

pub other_keys : TaskManager → Str → List Str
other_keys tm preferred = sort_strings (filter (λ k. not (str_eq k preferred)) (keys tm.queue))

abbrev pub dequeued : TaskManager → Option (TaskManager × Task) → TaskManager × Option Task
dequeued tm none = (tm, none)
dequeued tm (some (tm', next)) = (tm', some next)

pub dequeue_next_startable : TaskManager → Str → TaskManager × Option Task
unfolding try_preferred try_keys other_keys
dequeue_next_startable tm preferred =
    if leb tm.max_running (length tm.active_tasks)
    then (tm, none)
    else dequeued tm (or_else (try_preferred tm preferred) (try_keys tm (other_keys tm preferred)))

abbrev pub runner_of : Option Task → List Spawn
runner_of none = []
runner_of (some t) = run_task t ∷ []

abbrev pub callback_of : Task → Option Str → List Spawn
callback_of task err = if task.on_complete then completion task err ∷ [] else []

-- The finished task is not reachable from the manager any more; its callback sees its new fields.
pub complete_task : TaskManager → Task → TaskStatus → Option Str → ℕ → TaskManager × List Spawn
unfolding dequeue_next_startable notifications
complete_task tm task status err now =
    let task' = record task { status = status; error = err; finished_at = now } in
    let key = key_of task in
    let (tm', next) =
      dequeue_next_startable (record tm { active_tasks = delete key tm.active_tasks }) key in
    (tm', callback_of task' err ++ notifications tm ++ runner_of next)
