-- ===== src/TaskPoller/Watching.antt =====
-- What is watched, and who is told.
use pvetui.Base.{
  ℕ, ◌+◌, ◌<◌, List, [], ◌∷◌, ◌++◌, none, false, Str, str, str_eq_refl, get, get-put, ℤ, ◌≡◌, refl,
  arith, inl, inr, All, delete-put, map, ==_iff, ◌==◌, Option-cases,
}
use pvetui.TaskPoller.{
  Poller, new_task, add_task, monitor_tick, reported, subscribe, unregister, remove_callback,
  notify_listeners, monitor, callback, TaskInfo,
}

told :
    (ids : List ℕ) (task : TaskInfo) → notify_listeners ids task ≡ map (λ id. callback id task) ids
unfolding notify_listeners
told [] task = refl
told (id ∷ ids) task = rw (told ids task) refl

-- Adding a task that is not watched and seeing it stop gives the poller back, whatever the exit status;
-- both times each callback, in their order, is given the task with its status then, and between the two
-- the task has one monitor, which ends.
pub monitor_tick-add_task :
    (p : Poller) (upid node exit : Str) (vmid : ℤ) (now : ℕ)
    → get upid p.tasks ≡ none
    → let task = new_task upid node vmid now in
      let (p', spawns) = add_task p upid node vmid now in
      let ended = monitor_tick p' task (reported (str "stopped") exit) in
      (spawns ≡ map (λ id. callback id task) p.callbacks ++ monitor task ∷ [])
      × (ended ≡ (
        p,
        map
            (λ id. callback id (record task { status = str "stopped"; exit_status = exit }))
            p.callbacks,
        false,
      ))
unfolding add_task monitor_tick
monitor_tick-add_task p upid node exit vmid now h =
    rw
      (
        h,
        str_eq_refl (str "stopped"),
        told p.callbacks (new_task upid node vmid now),
        told p.callbacks
            (record (new_task upid node vmid now) { status = str "stopped"; exit_status = exit }),
      )
      (refl, rw (delete-put upid (new_task upid node vmid now) p.tasks h) refl)

-- A task that is watched already is not added again: nothing changes and nobody is told.
add_task_watched :
    (p : Poller) (upid node node' : Str) (vmid vmid' : ℤ) (now now' : ℕ)
    → let p' = (add_task p upid node vmid now).0 in add_task p' upid node' vmid' now' ≡ (p', [])
unfolding add_task
add_task_watched p upid node node' vmid vmid' now now' = elim (Option-cases (get upid p.tasks)) [
  | inr (t, e) ↦ rw e (rw e refl)
  | inl e ↦
      rw e (rw (get-put upid upid (new_task upid node vmid now) p.tasks, str_eq_refl upid) refl)
]

remove_last :
    (id : ℕ) (ids : List ℕ) → All (λ j. j < id) ids → remove_callback id (ids ++ id ∷ []) ≡ ids
unfolding remove_callback
remove_last id [] h = rw ((==_iff id id).1 refl) refl
remove_last id (j ∷ ids) h = rw (differs, remove_last id ids h.1) refl
  where
    differs : (j == id) ≡ false
    differs = ground (arith, h.0)

below_next : (n : ℕ) (ids : List ℕ) → All (λ j. j < n) ids → All (λ j. j < n + 1) (ids ++ n ∷ [])
below_next n [] h = (omega arith, tt)
below_next n (j ∷ ids) h = (omega (arith, h.0), below_next n ids h.1)

-- Where every callback has a number below the next one, a new callback gets a number of its own, and
-- unregistering it leaves the callbacks as they were; the numbers stay below the next one.
unregister-subscribe :
    (p : Poller)
    → All (λ j. j < p.next_callback_id) p.callbacks
    → let (p', id) = subscribe p in
      ((unregister p' id).callbacks ≡ p.callbacks) × All (λ j. j < p'.next_callback_id) p'.callbacks
unfolding subscribe unregister
unregister-subscribe p h =
    (remove_last p.next_callback_id p.callbacks h, below_next p.next_callback_id p.callbacks h)
