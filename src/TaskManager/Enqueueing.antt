-- ===== src/TaskManager/Enqueueing.antt =====
-- What Enqueue does to the invariant and to the lanes.
use pvetui.Base.{
  ℕ, ◌<◌, List, [], ◌∷◌, ◌++◌, Option, none, some, true, false, Str, str_eq, str_eq_iff, get, put,
  get-put, put-Distinct, length-put, Elem, Elem-append, length, if◌then◌else◌, ◌≡◌, ◌≢◌, arith, inl,
  inr, Bool-cases, ◌∙◌, sym, ap,
}
use pvetui.TaskManager.{
  TaskManager, Task, queue_at, slice_of, can_start, enqueue_task, key_of, enqueue, internal_task,
}
use pvetui.TaskManager.Lanes.{lane, lane-enqueue_idle}
use pvetui.TaskManager.Invariant.{IsValid}

-- What the two branches of `enqueue_task` do to a lane that has no active task.
module _ (tm : TaskManager) (t : Task) (v : IsValid tm) where
  put-busy :
      can_start tm (key_of t) ≡ true
      → (k : Str) → get k (put (key_of t) t tm.active_tasks) ≡ none
      → queue_at tm k ≡ []
  put-busy y k h = v.busy (ground arith) k (ground (arith, get-put (key_of t) k t tm.active_tasks))

  queue_at-put :
      (k : Str)
      → slice_of (get k (put (key_of t) (queue_at tm (key_of t) ++ t ∷ []) tm.queue))
        ≡ (if str_eq (key_of t) k then queue_at tm k ++ t ∷ [] else queue_at tm k)
  unfolding queue_at
  queue_at-put k = elim (Bool-cases (str_eq (key_of t) k)) [
    | inl y ↦ rw (get-put (key_of t) k _ tm.queue, y) (rw ((str_eq_iff (key_of t) k).0 y))
    | inr n ↦ rw (get-put (key_of t) k _ tm.queue, n)
  ]

  waiting-busy :
      can_start tm (key_of t) ≡ false
      → length tm.active_tasks < tm.max_running
      → (k : Str) → get k tm.active_tasks ≡ none
      → slice_of (get k (put (key_of t) (queue_at tm (key_of t) ++ t ∷ []) tm.queue)) ≡ []
  waiting-busy n room k h = elim (Bool-cases (str_eq (key_of t) k)) [
    | inl y ↦ absurd (refused (rw (← (str_eq_iff (key_of t) k).0 y) at h))
    | inr m ↦ rw (queue_at-put k, m) (v.busy room k h)
  ]
    where
      refused : get (key_of t) tm.active_tasks ≡ none → ⊥
      refused h' = ground arith

  waiting-placed :
      (k : Str) (u : Task)
      → Elem u (slice_of (get k (put (key_of t) (queue_at tm (key_of t) ++ t ∷ []) tm.queue)))
      → key_of u ≡ k
  waiting-placed k u m = elim (Bool-cases (str_eq (key_of t) k)) [
    | inl y ↦ elim (Elem-append u (queue_at tm k) (t ∷ []) (rw (queue_at-put k, y) at m)) [
      | inl old ↦ v.queue_placed k u old
      | inr (inl new) ↦ ap key_of (sym new) ∙ (str_eq_iff (key_of t) k).0 y
      | inr (inr impossible) ↦ absurd impossible
    ]
    | inr n ↦ v.queue_placed k u (rw (queue_at-put k, n) at m)
  ]

  waiting-no_empty :
      (k : Str) → get k (put (key_of t) (queue_at tm (key_of t) ++ t ∷ []) tm.queue) ≢ some []
  waiting-no_empty k e = ground (
    arith,
    get-put (key_of t) k (queue_at tm (key_of t) ++ t ∷ []) tm.queue,
    v.no_empty k,
    append-ne (queue_at tm (key_of t)) t,
  )
    where
      append-ne : (q : List Task) (u : Task) → q ++ u ∷ [] ≢ []
      append-ne [] u e = cc
      append-ne (x ∷ q) u e = cc

pub enqueue_task-IsValid :
    (tm : TaskManager) (t : Task) → IsValid tm → IsValid (enqueue_task tm t).0
unfolding enqueue_task queue_at
enqueue_task-IsValid tm t v = elim (Bool-cases (can_start tm (key_of t))) [
  | inl y ↦ rw y (record {
    active_distinct = put-Distinct (key_of t) t tm.active_tasks v.active_distinct;
    queue_distinct = v.queue_distinct;
    positive = v.positive;
    bounded = ground (arith, length-put (key_of t) t tm.active_tasks);
    placed = λ k u h.
        ground
          (arith, get-put (key_of t) k t tm.active_tasks, str_eq_iff (key_of t) k, v.placed k u);
    queue_placed = v.queue_placed;
    no_empty = v.no_empty;
    busy = λ _. put-busy tm t v y;
  })
  | inr n ↦ rw n (record {
    active_distinct = v.active_distinct;
    queue_distinct = put-Distinct (key_of t) _ tm.queue v.queue_distinct;
    positive = v.positive;
    bounded = v.bounded;
    placed = v.placed;
    queue_placed = waiting-placed tm t v;
    no_empty = waiting-no_empty tm t v;
    busy = waiting-busy tm t v n;
  })
]

-- Enqueueing a task, or nil, keeps the invariant.
pub enqueue-IsValid :
    (tm : TaskManager) (task : Option Task) (fresh : Str) (now : ℕ)
    → IsValid tm
    → IsValid (enqueue tm task fresh now).0
unfolding enqueue
enqueue-IsValid tm none fresh now v = v
enqueue-IsValid tm (some task) fresh now v = enqueue_task-IsValid tm _ v

-- In a valid manager enqueueing appends the manager's copy of the task to the task's lane, whether it
-- starts at once or waits, and leaves every other lane as it was.
pub lane-enqueue :
    (tm : TaskManager) (task : Task) (fresh : Str) (now : ℕ) (j : Str)
    → IsValid tm
    → lane (enqueue tm (some task) fresh now).0 j ≡ (
        if str_eq (key_of task) j
        then lane tm j ++ internal_task task fresh now ∷ []
        else lane tm j)
lane-enqueue tm task fresh now j v =
    lane-enqueue_idle tm task fresh now j
      λ starts. v.busy (ground arith) (key_of task) (ground arith)
