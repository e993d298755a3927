-- ===== src/TaskManager/Lanes.antt =====
-- A lane is what is active under a key and then what is queued there. The manager's operations are
-- FIFO operations on the lanes.
use pvetui.Base.{
  ℕ, List, [], ◌∷◌, ◌++◌, Option, none, some, true, Str, str_eq, str_eq_iff, Dict, get, put, delete,
  get-put, get-delete, if◌then◌else◌, ◌≡◌, ◌≢◌, refl, arith, inl, inr, Bool-cases, append_assoc,
  tail, ◌∙◌, sym, itoa, ℤ, itoa-bytes, itoa_injective, separated_injective, Elem, ◌↔◌,
}
use pvetui.TaskManager.{
  TaskManager, Task, TaskStatus, queue_at, slice_of, store_queue, started, can_start, enqueue_task,
  complete_task, key_of, task_key, internal_task, with_id, enqueue,
}
use pvetui.TaskManager.Dequeue.{Dequeues, full, nothing, starts, dequeue-Dequeues}

append-ne : (s : Str) (c : ℕ) (r : Str) → s ++ c ∷ r ≢ []
append-ne [] c r e = cc
append-ne (x ∷ s) c r e = cc

pub key_of-ne : (task : Task) → key_of task ≢ []
unfolding task_key
key_of-ne task = append-ne task.target_node b'/' (itoa task.target_vmid)

abbrev pub to_list : Option Task → List Task
to_list none = []
to_list (some t) = t ∷ []

abbrev pub active_at : TaskManager → Str → List Task
active_at tm key = to_list (get key tm.active_tasks)

-- The tasks of one node and guest in the order of their service.
unfoldable pub lane : TaskManager → Str → List Task
lane tm key = active_at tm key ++ queue_at tm key

pub get-store_queue :
    (key j : Str) (q : List Task) (m : Dict (List Task))
    → slice_of (get j (store_queue key q m)) ≡ (if str_eq key j then q else slice_of (get j m))
unfolding store_queue
get-store_queue key j [] m = ground (arith, get-delete key j (put key [] m), get-put key j [] m)
get-store_queue key j (t ∷ q) m = ground (arith, get-put key j (t ∷ q) m)

pub queue_at-started :
    (tm : TaskManager) (key j : Str) (next : Task) (rest : List Task)
    → queue_at (started tm key next rest) j ≡ (if str_eq key j then rest else queue_at tm j)
unfolding started queue_at
queue_at-started tm key j next rest = get-store_queue key j rest tm.queue

active_at-started :
    (tm : TaskManager) (key j : Str) (next : Task) (rest : List Task)
    → active_at (started tm key next rest) j ≡ (if str_eq key j then next ∷ [] else active_at tm j)
unfolding started
active_at-started tm key j next rest = ground (arith, get-put key j next tm.active_tasks)

-- Starting the head of a lane moves it within the lane.
lane-started :
    (tm : TaskManager) (key j : Str) (next : Task) (rest : List Task)
    → get key tm.active_tasks ≡ none
    → queue_at tm key ≡ next ∷ rest
    → lane (started tm key next rest) j ≡ lane tm j
unfolding lane
lane-started tm key j next rest idle head = elim (Bool-cases (str_eq key j)) [
  | inl y ↦
      rw (queue_at-started tm key j next rest, active_at-started tm key j next rest, y)
        (same ((str_eq_iff key j).0 y))
  | inr n ↦ rw (queue_at-started tm key j next rest, active_at-started tm key j next rest, n)
]
  where
    same : key ≡ j → next ∷ rest ≡ active_at tm j ++ queue_at tm j
    same e = rw (← e) (rw (idle, head))

lane-Dequeues :
    (tm : TaskManager) (preferred j : Str) (r : TaskManager × Option Task)
    → Dequeues tm preferred r
    → lane r.0 j ≡ lane tm j
lane-Dequeues tm preferred j _ (full _) = refl
lane-Dequeues tm preferred j _ (nothing _ _) = refl
lane-Dequeues tm preferred j _ (starts key next rest _ idle head _ _) =
    lane-started tm key j next rest idle head

lane-deleted :
    (tm : TaskManager) (key j : Str) (task : Task)
    → get key tm.active_tasks ≡ some task
    → lane (record tm { active_tasks = delete key tm.active_tasks }) j
      ≡ (if str_eq key j then tail (lane tm j) else lane tm j)
unfolding lane queue_at
lane-deleted tm key j task e = elim (Bool-cases (str_eq key j)) [
  | inl y ↦ rw (get-delete key j tm.active_tasks, y) (same ((str_eq_iff key j).0 y))
  | inr n ↦ rw (get-delete key j tm.active_tasks, n)
]
  where
    same : key ≡ j → queue_at tm j ≡ tail (lane tm j)
    same p = rw (← p) (rw e refl)

-- Completing the active task of a lane takes the head off that lane, and leaves every other lane as
-- it was, whichever lane gives the next task.
pub lane-complete_task :
    (tm : TaskManager) (task : Task) (status : TaskStatus) (err : Option Str) (now : ℕ) (j : Str)
    → get (key_of task) tm.active_tasks ≡ some task
    → lane (complete_task tm task status err now).0 j
      ≡ (if str_eq (key_of task) j then tail (lane tm j) else lane tm j)
unfolding complete_task
lane-complete_task tm task status err now j e =
    lane-Dequeues _ (key_of task) j _ (dequeue-Dequeues _ (key_of task) (key_of-ne task))
    ∙ lane-deleted tm (key_of task) j task e

pub key_of-internal_task :
    (task : Task) (fresh : Str) (now : ℕ) → key_of (internal_task task fresh now) ≡ key_of task
unfolding internal_task
key_of-internal_task task fresh now = elim (Bool-cases (str_eq task.id [])) [
  | inl y ↦ rw (y, with_id)
  | inr n ↦ rw (n, with_id)
]

-- The active lane head that a successful start test rules out.
can_start-idle :
    (tm : TaskManager) (key : Str) → can_start tm key ≡ true → get key tm.active_tasks ≡ none
can_start-idle tm key h = ground arith

lane-enqueue_task :
    (tm : TaskManager) (t : Task) (j : Str)
    → (can_start tm (key_of t) ≡ true → queue_at tm (key_of t) ≡ [])
    → lane (enqueue_task tm t).0 j
      ≡ (if str_eq (key_of t) j then lane tm j ++ t ∷ [] else lane tm j)
unfolding enqueue_task lane queue_at
lane-enqueue_task tm t j fifo = elim (Bool-cases (can_start tm (key_of t))) [
  | inl y ↦
      rw (y, get-put (key_of t) j t tm.active_tasks)
        (elim (Bool-cases (str_eq (key_of t) j)) [
          | inr n ↦ rw n
          | inl p ↦
              rw p
                (rw (← (str_eq_iff (key_of t) j).0 p) (rw (can_start-idle tm (key_of t) y, fifo y)))
        ])
  | inr n ↦
      rw (n, get-put (key_of t) j _ tm.queue)
        (elim (Bool-cases (str_eq (key_of t) j)) [
          | inr n' ↦ rw n'
          | inl p ↦ rw p (
              rw (← (str_eq_iff (key_of t) j).0 p)
                (sym (append_assoc (active_at tm (key_of t)) (queue_at tm (key_of t)) (t ∷ []))))
        ])
]

pub lane-enqueue_idle :
    (tm : TaskManager) (task : Task) (fresh : Str) (now : ℕ) (j : Str)
    → (can_start tm (key_of task) ≡ true → queue_at tm (key_of task) ≡ [])
    → lane (enqueue tm (some task) fresh now).0 j ≡ (
        if str_eq (key_of task) j
        then lane tm j ++ internal_task task fresh now ∷ []
        else lane tm j)
unfolding enqueue
lane-enqueue_idle tm task fresh now j fifo =
    let same = key_of-internal_task task fresh now in
    rw (← same) (lane-enqueue_task tm (internal_task task fresh now) j (rw same fifo))

no_slash : (n : ℤ) → Elem 47 (itoa n) → ⊥
no_slash n e = elim (itoa-bytes n 47 e) [ inl p ↦ omega (arith, p) | inr (l, u) ↦ omega (arith, l) ]

-- Two tasks are in the same lane exactly where they have the same guest number on the same node.
task_key_injective :
    (node node' : Str) (vmid vmid' : ℤ)
    → (task_key node vmid ≡ task_key node' vmid') ↔ ((node ≡ node') × (vmid ≡ vmid'))
unfolding task_key
task_key_injective node node' vmid vmid' = (
  λ e.
      let (p, q) =
        separated_injective 47 node node' (itoa vmid) (itoa vmid') (no_slash vmid) (no_slash vmid')
          e in
      (p, itoa_injective vmid vmid' q),
  λ e. rw (e.0, e.1) refl,
)
