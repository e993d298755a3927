-- ===== src/TaskPoller/Tests.antt =====
-- Runs of the poller at concrete inputs, and the theorems applied there.
use pvetui.Base.{ℕ, ◌<◌, [], ◌∷◌, none, false, str, ◌≡◌, refl, get, put, pos, All, arith}
use pvetui.TaskPoller.{
  Poller, new_task, add_task, monitor_tick, reported, subscribe, monitor, callback,
  get_active_tasks_for_vm, new,
}
use pvetui.TaskPoller.Watching.{monitor_tick-add_task}

-- A poller with one callback that watches nothing.
abbrev listened : Poller
listened = record { tasks = []; callbacks = 0 ∷ []; next_callback_id = 1; cancelled = false }

subscribed_once : (subscribe new).0 ≡ listened
unfolding subscribe new
subscribed_once = refl

watched_for_vm :
    get_active_tasks_for_vm (add_task listened (str "U1") (str "pve1") (pos 7) 5).0 (pos 7)
    ≡ new_task (str "U1") (str "pve1") (pos 7) 5 ∷ []
unfolding get_active_tasks_for_vm add_task get put
watched_for_vm = refl

unwatched : get (str "U1") listened.tasks ≡ none
unfolding get
unwatched = refl

monitor_tick-add_task_example :
    let task = new_task (str "U1") (str "pve1") (pos 7) 5 in
    let (p', spawns) = add_task listened (str "U1") (str "pve1") (pos 7) 5 in
    let ended = monitor_tick p' task (reported (str "stopped") (str "OK")) in
    (spawns ≡ callback 0 task ∷ monitor task ∷ [])
    × (ended ≡ (
      listened,
      callback 0 (record task { status = str "stopped"; exit_status = str "OK" }) ∷ [],
      false,
    ))
monitor_tick-add_task_example =
    monitor_tick-add_task listened (str "U1") (str "pve1") (str "OK") (pos 7) 5 unwatched

zero_below : All (λ (j : ℕ). j < 1) (0 ∷ [])
zero_below = (omega arith, tt)
