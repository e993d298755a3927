-- ===== src/TaskManager/Runner/Progress.antt =====
-- What the runners can still do in a state that the manager reaches.
use pvetui.Base.{
  List, [], ◌∷◌, Option, none, some, Bool, true, false, Str, str, str_eq, str_eq_iff, str_eq_refl,
  get, get-put, put, ◌≡◌, ◌≢◌, refl, ◌∙◌, is_some, Bool-cases, ℤ, inl, inr, tail, All,
  if◌then◌else◌,
}
use pvetui.TaskManager.{TaskManager, Task, TaskStatus, complete_task, key_of, queue_at}
use pvetui.TaskManager.Lanes.{lane, lane-complete_task}
use pvetui.TaskManager.Runner.{
  Phase, spawned, executing, polling, reported, System, Event, enqueues, cancels, begins, returns,
  polls, stops, quits, step, run, begin_task, return_runner, operation_returned, poll_runner, poll,
}
use pvetui.TaskManager.Runner.Matching.{start_runners-notifications}
use pvetui.TaskManager.Runner.Reachable.{initial, run-IsSound, first_active, some_active}

-- An event is a step of the runner with the key.
abbrev pub IsOf : Str → Event → Type 0
IsOf key (enqueues task fresh now) = ⊥
IsOf key (cancels id stop_task) = ⊥
IsOf key (begins j now) = j ≡ key
IsOf key (returns j upid err now) = j ≡ key
IsOf key (polls j reply now) = j ≡ key
IsOf key stops = ⊥
IsOf key (quits j) = j ≡ key

-- The lanes after the head of one lane has left, which had one.
pub record Advances (tm tm' : TaskManager) (key : Str) : Type 0 where
  pub head : lane tm key ≢ []
  pub after : (j : Str) → lane tm' j ≡ (if str_eq key j then tail (lane tm j) else lane tm j)

head_active :
    (tm : TaskManager) (key : Str) (t : Task) → get key tm.active_tasks ≡ some t → lane tm key ≢ []
unfolding lane
head_active tm key t e = rw e (λ q. cc)

lane-completed :
    (tm : TaskManager) (key j : Str) (t : Task)
    → get key tm.active_tasks ≡ some t
    → key_of t ≡ key
    → lane (complete_task tm t TaskStatus.completed none 0).0 j
      ≡ (if str_eq key j then tail (lane tm j) else lane tm j)
lane-completed tm key j t e k =
    let q = lane-complete_task tm t TaskStatus.completed none 0 j (rw k e) in rw k at q

returns-Advances :
    (s : System) (key : Str) (t : Task)
    → get key s.runners ≡ some executing
    → get key s.tm.active_tasks ≡ some t
    → key_of t ≡ key
    → Advances s.tm (step s (returns key [] none 0)).tm key
unfolding step return_runner operation_returned
returns-Advances s key t r e k = record {
  head = head_active s.tm key t e;
  after = λ j. rw (r, e) (lane-completed s.tm key j t e k);
}

polls-Advances :
    (s : System) (key : Str) (t : Task)
    → get key s.runners ≡ some polling
    → get key s.tm.active_tasks ≡ some t
    → key_of t ≡ key
    → Advances s.tm (step s (polls key (reported (str "stopped") (str "OK")) 0)).tm key
unfolding step poll_runner poll str_eq
polls-Advances s key t r e k = record {
  head = head_active s.tm key t e;
  after = λ j. rw (r, e) (lane-completed s.tm key j t e k);
}

abbrev begun : Task → Task
begun t = record t { status = TaskStatus.running; started_at = 0 }

-- Marking the active task as running changes the head of its lane.
lane-begun :
    (tm : TaskManager) (key j : Str) (t : Task)
    → get key tm.active_tasks ≡ some t
    → key_of t ≡ key
    → let tm' = (begin_task tm t 0).0 in
      (if str_eq key j then tail (lane tm' j) else lane tm' j)
      ≡ (if str_eq key j then tail (lane tm j) else lane tm j)
unfolding begin_task lane queue_at
lane-begun tm key j t e k = elim (Bool-cases (str_eq key j)) [
  | inl y ↦
      let here = rw ((str_eq_iff key j).0 y) at e in
      rw (y, k, get-put key j (begun t) tm.active_tasks, y, here) refl
  | inr n ↦ rw (n, k, get-put key j (begun t) tm.active_tasks, n) refl
]

begins-tm :
    (s : System) (key : Str) (t : Task)
    → get key s.runners ≡ some spawned
    → get key s.tm.active_tasks ≡ some t
    → (step s (begins key 0)).tm ≡ (begin_task s.tm t 0).0
unfolding step
begins-tm s key t r e = rw (r, e) refl

begins-executing :
    (s : System) (key : Str) (t : Task)
    → get key s.runners ≡ some spawned
    → get key s.tm.active_tasks ≡ some t
    → get key (step s (begins key 0)).runners ≡ some executing
unfolding step begin_task
begins-executing s key t r e =
    rw
      (
        r,
        e,
        start_runners-notifications s.tm (put key executing s.runners),
        get-put key key executing s.runners,
        str_eq_refl key,
      )
      refl

begins-active :
    (s : System) (key : Str) (t : Task)
    → get key s.runners ≡ some spawned
    → get key s.tm.active_tasks ≡ some t
    → key_of t ≡ key
    → get key (step s (begins key 0)).tm.active_tasks ≡ some (begun t)
unfolding begin_task
begins-active s key t r e k =
    rw (begins-tm s key t r e, k, get-put key key (begun t) s.tm.active_tasks, str_eq_refl key) refl

begins-Advances :
    (s : System) (key : Str) (t : Task)
    → get key s.runners ≡ some spawned
    → get key s.tm.active_tasks ≡ some t
    → key_of t ≡ key
    → Advances s.tm (run s (begins key 0 ∷ returns key [] none 0 ∷ [])).tm key
unfolding run
begins-Advances s key t r e k = record {
  head = head_active s.tm key t e;
  after = λ j. later.after j ∙ rw (begins-tm s key t r e) (lane-begun s.tm key j t e k);
}
  where
    later :
        Advances
          (step s (begins key 0)).tm
          (step (step s (begins key 0)) (returns key [] none 0)).tm
          key
    later =
        returns-Advances (step s (begins key 0)) key (begun t) (begins-executing s key t r e)
          (begins-active s key t r e k) k

finishes :
    (s : System) (key : Str) (t : Task) (p : Phase)
    → get key s.runners ≡ some p
    → get key s.tm.active_tasks ≡ some t
    → key_of t ≡ key
    → (es : List Event) × All (IsOf key) es × Advances s.tm (run s es).tm key
finishes s key t spawned r e k =
    (begins key 0 ∷ returns key [] none 0 ∷ [], (refl, (refl, tt)), begins-Advances s key t r e k)
finishes s key t executing r e k =
    (returns key [] none 0 ∷ [], (refl, tt), unfold run in returns-Advances s key t r e k)
finishes s key t polling r e k = (
  polls key (reported (str "stopped") (str "OK")) 0 ∷ [],
  (refl, tt),
  unfold run in polls-Advances s key t r e k,
)

found : {A : Type 0} (o : Option A) → is_some o ≡ true → (x : A) × (o ≡ some x)
found none h = cc
found (some x) h = (x, refl)

-- In every state that enqueues, cancellations, runner steps and a stop lead to, if it is not stopped and a
-- task waits in some queue, then there are a lane with an active task and steps of the runner of that
-- lane alone by which that task completes: it leaves its lane, and every other lane keeps its tasks.
pub run-progress :
    (notifies : Bool) (max_running : ℤ) (es : List Event) (key : Str)
    → (run (initial notifies max_running) es).tm.stopped ≡ false
    → queue_at (run (initial notifies max_running) es).tm key ≢ []
    → (j : Str) × (es' : List Event) × All (IsOf j) es'
      × Advances
          (run (initial notifies max_running) es).tm
          (run (run (initial notifies max_running) es) es').tm
          j
run-progress notifies max_running es key running waits =
    let s = run (initial notifies max_running) es in
    let v = run-IsSound notifies max_running es in
    let (j, active) = first_active _ (some_active _ key v.valid waits) in
    let (t, e) = found (get j s.tm.active_tasks) active in
    let (p, r) = found (get j s.runners) (v.manned running j active) in
    let (es', own, advances) = finishes s j t p r e (v.valid.placed j t e) in
    (j, es', own, advances)
