-- ===== src/TaskManager/Invariant.antt =====
-- The invariant of the manager: the cap, one active task for each lane, and no idle slot while a
-- lane could use it.
use pvetui.Base.{
  ℕ, ◌≤◌, ◌<◌, ◌+◌, List, [], ◌∷◌, Option, none, some, true, false, Str, str_eq, str_eq_iff,
  str_eq_refl, Dict, get, put, delete, get-put, get-delete, put-Distinct, delete-Distinct,
  length-put, length-delete, Distinct, Elem, length, ◌≡◌, ◌≢◌, refl, arith, inl, inr, Bool-cases,
  ◌∙◌, sym,
}
use pvetui.TaskManager.{
  TaskManager, Task, TaskStatus, queue_at, store_queue, started, complete_task, key_of,
}
use pvetui.TaskManager.Dequeue.{Dequeues, full, nothing, starts, dequeue-Dequeues}
use pvetui.TaskManager.Lanes.{queue_at-started, key_of-ne}

pub record IsValid (tm : TaskManager) : Type 0 where
  pub active_distinct : Distinct tm.active_tasks
  pub queue_distinct : Distinct tm.queue
  pub positive : 0 < tm.max_running
  pub bounded : length tm.active_tasks ≤ tm.max_running
  -- every active task stands under its own key
  pub placed : (key : Str) (t : Task) → get key tm.active_tasks ≡ some t → key_of t ≡ key
  -- every queued task stands under its own key
  pub queue_placed : (key : Str) (t : Task) → Elem t (queue_at tm key) → key_of t ≡ key
  -- no key holds an empty queue
  pub no_empty : (key : Str) → get key tm.queue ≢ some []
  -- below the cap only a lane with an active task has a queue
  pub busy :
      length tm.active_tasks < tm.max_running
      → (key : Str) → get key tm.active_tasks ≡ none
      → queue_at tm key ≡ []

pub store_queue-Distinct :
    (key : Str) (q : List Task) (m : Dict (List Task)) → Distinct m → Distinct (store_queue key q m)
unfolding store_queue
store_queue-Distinct key [] m d = delete-Distinct key _ (put-Distinct key [] m d)
store_queue-Distinct key (t ∷ q) m d = put-Distinct key (t ∷ q) m d

pub store_queue-no_empty :
    (key j : Str) (q : List Task) (m : Dict (List Task))
    → get j m ≢ some []
    → get j (store_queue key q m) ≢ some []
unfolding store_queue
store_queue-no_empty key j [] m h =
    ground (arith, h, get-delete key j (put key [] m), get-put key j [] m)
store_queue-no_empty key j (t ∷ q) m h = ground (arith, h, get-put key j (t ∷ q) m)

-- A manager that has just lost the task of `lost`: all holds but that `lost` may have a queue.
pub record IsReleased (tm : TaskManager) (lost : Str) : Type 0 where
  pub active_distinct : Distinct tm.active_tasks
  pub queue_distinct : Distinct tm.queue
  pub room : length tm.active_tasks < tm.max_running
  pub placed : (key : Str) (t : Task) → get key tm.active_tasks ≡ some t → key_of t ≡ key
  pub queue_placed : (key : Str) (t : Task) → Elem t (queue_at tm key) → key_of t ≡ key
  pub no_empty : (key : Str) → get key tm.queue ≢ some []
  pub busy :
      length tm.active_tasks + 1 < tm.max_running
      → (key : Str) → key ≢ lost
      → get key tm.active_tasks ≡ none
      → queue_at tm key ≡ []

pub delete-IsReleased :
    (tm : TaskManager) (key : Str) (t : Task)
    → IsValid tm
    → get key tm.active_tasks ≡ some t
    → IsReleased (record tm { active_tasks = delete key tm.active_tasks }) key
delete-IsReleased tm key t v e = record {
  active_distinct = delete-Distinct key tm.active_tasks v.active_distinct;
  queue_distinct = v.queue_distinct;
  room = ground (arith, one_less, v.bounded);
  placed = λ k u h. v.placed k u (ground (arith, get-delete key k tm.active_tasks));
  queue_placed = λ k u m. v.queue_placed k u (unfold queue_at in m);
  no_empty = v.no_empty;
  busy = λ room k ne h.
      unfold queue_at in
      v.busy (ground (arith, one_less)) k
        (ground (arith, get-delete key k tm.active_tasks, str_eq_iff key k));
}
  where
    one_less : length tm.active_tasks ≡ length (delete key tm.active_tasks) + 1
    one_less = ground (arith, length-delete key tm.active_tasks v.active_distinct)

module _ (tm : TaskManager) (lost key : Str) (next : Task) (rest : List Task)
    (v : IsReleased tm lost) (idle : get key tm.active_tasks ≡ none)
    (head : queue_at tm key ≡ next ∷ rest) where
  started-length : length (started tm key next rest).active_tasks ≡ length tm.active_tasks + 1
  unfolding started
  started-length = ground (arith, length-put key next tm.active_tasks)

  next_key : key_of next ≡ key
  next_key = v.queue_placed key next (rw head (inl refl))

  started-placed :
      (k : Str) (u : Task) → get k (started tm key next rest).active_tasks ≡ some u → key_of u ≡ k
  unfolding started
  started-placed k u h =
      ground (arith, get-put key k next tm.active_tasks, str_eq_iff key k, v.placed k u, next_key)

  started-queue_placed :
      (k : Str) (u : Task) → Elem u (queue_at (started tm key next rest) k) → key_of u ≡ k
  started-queue_placed k u m = elim (Bool-cases (str_eq key k)) [
    | inl y ↦
        let e = (str_eq_iff key k).0 y in
        v.queue_placed k u (rw (← e, head) (inr (rw (queue_at-started tm key k next rest, y) at m)))
    | inr n ↦ v.queue_placed k u (rw (queue_at-started tm key k next rest, n) at m)
  ]

  started-busy :
      (key ≢ lost → queue_at tm lost ≡ [])
      → length (started tm key next rest).active_tasks < tm.max_running
      → (k : Str) → get k (started tm key next rest).active_tasks ≡ none
      → queue_at (started tm key next rest) k ≡ []
  started-busy lost_empty room k h = elim (Bool-cases (str_eq key k)) [
    | inl y ↦ absurd (active y)
    | inr n ↦
        rw (queue_at-started tm key k next rest, n)
          (elim (Bool-cases (str_eq k lost)) [
            | inl l ↦
                let e = (str_eq_iff k lost).0 l in
                rw e (lost_empty (λ p. str_eq-absurd (p ∙ sym e) n))
            | inr l ↦ v.busy (omega (arith, started-length)) k (λ p. str_eq-absurd p l) (was_idle n)
          ])
  ]
    where
      str_eq-absurd : {s t : Str} → s ≡ t → str_eq s t ≡ false → ⊥
      str_eq-absurd {s} {t} p q = ground (arith, str_eq_iff s t)

      active : str_eq key k ≡ true → ⊥
      active y = unfold started in cc (h, get-put key k next tm.active_tasks, y)

      was_idle : str_eq key k ≡ false → get k tm.active_tasks ≡ none
      was_idle n = unfold started in cc (h, get-put key k next tm.active_tasks, n)

  started-IsValid : (key ≢ lost → queue_at tm lost ≡ []) → IsValid (started tm key next rest)
  unfolding started
  started-IsValid lost_empty = record {
    active_distinct = put-Distinct key next tm.active_tasks v.active_distinct;
    queue_distinct = store_queue-Distinct key rest tm.queue v.queue_distinct;
    positive = omega (arith, v.room);
    bounded = omega (arith, v.room, started-length);
    placed = started-placed;
    queue_placed = started-queue_placed;
    no_empty = λ k. store_queue-no_empty key k rest tm.queue (v.no_empty k);
    busy = started-busy lost_empty;
  }

Dequeues-IsValid :
    (tm : TaskManager) (lost : Str) (r : TaskManager × Option Task)
    → IsReleased tm lost
    → get lost tm.active_tasks ≡ none
    → Dequeues tm lost r
    → IsValid r.0
Dequeues-IsValid tm lost _ v gone (full h) = absurd (omega (arith, v.room))
Dequeues-IsValid tm lost _ v gone (nothing h none_left) = record {
  active_distinct = v.active_distinct;
  queue_distinct = v.queue_distinct;
  positive = omega (arith, v.room);
  bounded = omega (arith, v.room);
  placed = v.placed;
  queue_placed = v.queue_placed;
  no_empty = v.no_empty;
  busy = λ _ k idle. empty_of_not k idle;
}
  where
    by_list :
        (k : Str) (q : List Task)
        → get k tm.active_tasks ≡ none
        → queue_at tm k ≡ q
        → queue_at tm k ≡ []
    by_list k [] idle e = e
    by_list k (t ∷ ts) idle e = absurd (none_left k (idle, λ p. cc))

    empty_of_not : (k : Str) → get k tm.active_tasks ≡ none → queue_at tm k ≡ []
    empty_of_not k idle = by_list k (queue_at tm k) idle refl
Dequeues-IsValid tm lost _ v gone (starts key next rest _ idle head first _) =
    started-IsValid tm lost key next rest v idle head λ ne. by_list (queue_at tm lost) ne refl
  where
    by_list : (q : List Task) → key ≢ lost → queue_at tm lost ≡ q → queue_at tm lost ≡ []
    by_list [] ne e = e
    by_list (t ∷ ts) ne e = absurd (ne (first (gone, λ p. cc)))

-- Completing an active task keeps the invariant.
pub complete_task-IsValid :
    (tm : TaskManager) (task : Task) (status : TaskStatus) (err : Option Str) (now : ℕ)
    → IsValid tm
    → get (key_of task) tm.active_tasks ≡ some task
    → IsValid (complete_task tm task status err now).0
unfolding complete_task
complete_task-IsValid tm task status err now v e =
    Dequeues-IsValid _ (key_of task) _ (delete-IsReleased tm (key_of task) task v e)
      (rw (get-delete (key_of task) (key_of task) tm.active_tasks, str_eq_refl (key_of task)))
      (dequeue-Dequeues _ (key_of task) (key_of-ne task))
