-- ===== src/TaskManager/Cancel/Active.antt =====
-- What CancelTask does about an id that is not queued.
use pvetui.Base.{
  List, [], ◌∷◌, Option, none, some, false, Str, str_eq, str_eq_iff, str_eq_refl, Dict, get, ◌≡◌,
  ◌≢◌, refl, arith, Bool-cases, Option-cases, inl, inr, ◌⊎◌, Elem, Distinct,
}
use pvetui.TaskManager.{TaskManager, Task, queue_at, slice_of}
use pvetui.TaskManager.Invariant.{IsValid}
use pvetui.TaskManager.Cancel.{
  CancelError, starting, not_found, remote, find_active, cancel_active, cancel_found, cancel_task,
}
use pvetui.TaskManager.Cancel.Laws.{Lacks, Removes, Elem-middle, find_queued_cases}

-- The answer of the network about the active task, whose UPID is known, or the refusal to ask.
abbrev pub Asks : (Str → Str → Option Str) → Task → Option CancelError → Type 0
Asks stop_task t error =
    ((t.upid ≡ []) × (error ≡ some starting))
    ⊎ ((t.upid ≢ [])
        × (((stop_task t.target_node t.upid ≡ none) × (error ≡ none))
            ⊎ ((e : Str) × (stop_task t.target_node t.upid ≡ some e) × (error ≡ some (remote e)))))

-- What comes of an id that is not queued.
abbrev pub CancelsActive :
    TaskManager → (Str → Str → Option Str) → Str → Option CancelError → Type 0
CancelsActive tm stop_task id error =
    (((key : Str) (t : Task) → get key tm.active_tasks ≡ some t → t.id ≢ id)
      × (error ≡ some not_found))
    ⊎ ((key : Str) × (t : Task) × (get key tm.active_tasks ≡ some t)
        × (t.id ≡ id)
        × Asks stop_task t error)

find_active_cases :
    (id : Str) (m : Dict Task)
    → Distinct m
    → ((find_active id m ≡ none) × ((key : Str) (t : Task) → get key m ≡ some t → t.id ≢ id))
      ⊎ ((key : Str) × (t : Task) × (find_active id m ≡ some t)
          × (get key m ≡ some t)
          × (t.id ≡ id))
unfolding find_active get
find_active_cases id [] d = inl (refl, λ key t e. cc)
find_active_cases id ((k, u) ∷ m) d = elim (Bool-cases (str_eq u.id id)) [
  | inl y ↦ inr (k, u, rw y refl, rw (str_eq_refl k) refl, (str_eq_iff u.id id).0 y)
  | inr n ↦ elim (find_active_cases id m d.1) [
    | inl (e, others) ↦ inl (
      rw n e,
      λ key t g. elim (Bool-cases (str_eq k key)) [
        | inl y ↦ other n key t (rw y at g)
        | inr w ↦ others key t (rw w at g)
      ],
    )
    | inr (key, t, e, g, named) ↦ inr (
      key,
      t,
      rw n e,
      elim (Bool-cases (str_eq k key)) [
        | inl y ↦ absurd (taken key t g ((str_eq_iff k key).0 y))
        | inr w ↦ rw w g
      ],
      named,
    )
  ]
]
  where
    other : str_eq u.id id ≡ false → (key : Str) (t : Task) → some u ≡ some t → t.id ≢ id
    other n key t g e = ground (arith, str_eq_iff u.id id, str_eq_iff t.id id)

    taken : (key : Str) (t : Task) → get key m ≡ some t → k ≡ key → ⊥
    taken key t g e = let a = rw e at d.0 in cc

cancel_active_cases :
    (stop_task : Str → Str → Option Str) (t : Task)
    → Asks stop_task t (cancel_active stop_task (some t))
unfolding cancel_active
cancel_active_cases stop_task t = elim (Bool-cases (str_eq t.upid [])) [
  | inl y ↦ inl ((str_eq_iff t.upid []).0 y, rw y refl)
  | inr n ↦ inr (
    known n,
    elim (Option-cases (stop_task t.target_node t.upid)) [
      | inl e ↦ inl (e, rw (n, e) refl)
      | inr (x, e) ↦ inr (x, e, rw (n, e) refl)
    ],
  )
]
  where
    known : str_eq t.upid [] ≡ false → t.upid ≢ []
    known n e = ground (arith, str_eq_iff t.upid [])

-- In a valid manager cancelling an id that no queue holds changes nothing and notifies nobody: where no
-- active task has the id it reports that none was found; else there is an active task with the id, and
-- without a UPID it is reported as starting, while with one the network is asked to stop the task on its
-- node, whose error is reported, and none is where it has none.
pub cancel_task_active :
    (tm : TaskManager) (stop_task : Str → Str → Option Str) (id : Str)
    → IsValid tm
    → ((key : Str) → Lacks id (queue_at tm key))
    → (error : Option CancelError) × (cancel_task tm stop_task id ≡ (tm, [], error))
      × CancelsActive tm stop_task id error
unfolding cancel_task cancel_found queue_at
cancel_task_active tm stop_task id v lacks = elim (find_queued_cases id tm.queue v.queue_distinct) [
  | inl (e, _) ↦ (
    cancel_active stop_task (find_active id tm.active_tasks),
    rw e refl,
    elim (find_active_cases id tm.active_tasks v.active_distinct) [
      | inl (f, others) ↦ inl (others, rw f (unfold cancel_active in refl))
      | inr (key, t, f, g, named) ↦ inr (key, t, g, named, rw f (cancel_active_cases stop_task t))
    ],
  )
  | inr (key, q', t, e, r) ↦ absurd (lacks key t (present key q' t r) r.named)
]
  where
    present :
        (key : Str) (q' : List Task) (t : Task)
        → Removes id (slice_of (get key tm.queue)) q' t
        → Elem t (slice_of (get key tm.queue))
    present key q' t r = rw (r.whole) (Elem-middle r.before r.after t)
