-- ===== src/TaskManager/Cancel/Laws.antt =====
-- What CancelTask does to the manager.
use pvetui.Base.{
  ◌<◌, List, [], ◌∷◌, ◌++◌, Option, none, some, false, Str, str_eq, str_eq_iff, str_eq_refl, Dict,
  get, if◌then◌else◌, ◌≡◌, ◌≢◌, refl, arith, length, Bool-cases, Option-cases, inl, inr, ◌⊎◌, Elem,
  Distinct, ◌∙◌, sym,
}
use pvetui.TaskManager.{TaskManager, Task, key_of, queue_at, slice_of, store_queue}
use pvetui.TaskManager.Lanes.{lane, active_at, get-store_queue}
use pvetui.TaskManager.Invariant.{IsValid, store_queue-Distinct, store_queue-no_empty}
use pvetui.TaskManager.Cancel.{remove_id, find_queued, cancel_found, cancel_task}

-- No task of the list has the id.
abbrev pub Lacks : Str → List Task → Type 0
Lacks id q = (t : Task) → Elem t q → t.id ≢ id

-- `q'` is `q` without its first task with the id, which is `t`.
pub record Removes (id : Str) (q q' : List Task) (t : Task) : Type 0 where
  pub before : List Task
  pub after : List Task
  pub whole : q ≡ before ++ t ∷ after
  pub left : q' ≡ before ++ after
  pub named : t.id ≡ id
  pub first : Lacks id before

pub remove_id_cases :
    (id : Str) (q : List Task)
    → ((remove_id id q ≡ none) × Lacks id q)
      ⊎ ((q' : List Task) × (t : Task) × (remove_id id q ≡ some (q', t)) × Removes id q q' t)
unfolding remove_id
remove_id_cases id [] = inl (refl, λ t e. absurd e)
remove_id_cases id (u ∷ q) = elim (Bool-cases (str_eq u.id id)) [
  | inl y ↦ inr (
    q,
    u,
    rw y,
    record {
      before = [];
      after = q;
      whole = refl;
      left = refl;
      named = (str_eq_iff u.id id).0 y;
      first = λ t e. absurd e;
    },
  )
  | inr n ↦ elim (remove_id_cases id q) [
    | inl (e, lacks) ↦
        inl (rw (n, e) refl, λ t m. elim m [ inl p ↦ rw (← p) (other n) | inr p ↦ lacks t p ])
    | inr (q', t, e, r) ↦ inr (
      u ∷ q',
      t,
      rw (n, e) refl,
      record {
        before = u ∷ r.before;
        after = r.after;
        whole = rw (r.whole);
        left = rw (r.left);
        named = r.named;
        first = λ x m. elim m [ inl p ↦ rw (← p) (other n) | inr p ↦ r.first x p ];
      },
    )
  ]
]
  where
    other : str_eq u.id id ≡ false → u.id ≢ id
    other n e = ground (arith, str_eq_iff u.id id)

split-ne : (before after : List Task) (t : Task) → before ++ t ∷ after ≢ []
split-ne [] after t e = cc
split-ne (x ∷ before) after t e = cc

Removes-ne : {id : Str} {q q' : List Task} {t : Task} → Removes id q q' t → q ≢ []
Removes-ne {t = t} r e = split-ne r.before r.after t (sym r.whole ∙ e)

Elem-shrink :
    (before after : List Task) (t u : Task)
    → Elem u (before ++ after)
    → Elem u (before ++ t ∷ after)
Elem-shrink [] after t u e = inr e
Elem-shrink (x ∷ before) after t u (inl e) = inl e
Elem-shrink (x ∷ before) after t u (inr e) = inr (Elem-shrink before after t u e)

Removes-Elem :
    {id : Str} {q q' : List Task} {t : Task} → Removes id q q' t → (u : Task) → Elem u q' → Elem u q
Removes-Elem {t = t} r u e = rw (r.whole) (Elem-shrink r.before r.after t u (rw (r.left) at e))

pub Elem-middle : (before after : List Task) (t : Task) → Elem t (before ++ t ∷ after)
Elem-middle [] after t = inl refl
Elem-middle (x ∷ before) after t = inr (Elem-middle before after t)

pub find_queued_cases :
    (id : Str) (m : Dict (List Task))
    → Distinct m
    → ((find_queued id m ≡ none) × ((key : Str) → Lacks id (slice_of (get key m))))
      ⊎ ((key : Str) × (q' : List Task) × (t : Task) × (find_queued id m ≡ some (key, q', t))
          × Removes id (slice_of (get key m)) q' t)
unfolding find_queued get
find_queued_cases id [] d = inl (refl, λ key t e. absurd e)
find_queued_cases id ((k, q) ∷ m) d = elim (remove_id_cases id q) [
  | inr (q', t, e, r) ↦ inr (k, q', t, rw (e, find_queued) refl, rw (str_eq_refl k) r)
  | inl (e, lacks) ↦ elim (find_queued_cases id m d.1) [
    | inl (e', lacks') ↦ inl (
      rw (e, find_queued) e',
      λ key. elim (Bool-cases (str_eq k key)) [ inl y ↦ rw y lacks | inr n ↦ rw n (lacks' key) ],
    )
    | inr (key, q', t, e', r) ↦ inr (
      key,
      q',
      t,
      rw (e, find_queued) e',
      elim (Bool-cases (str_eq k key)) [
        | inl y ↦ absurd (Removes-ne r (absent key ((str_eq_iff k key).0 y)))
        | inr n ↦ rw n r
      ],
    )
  ]
]
  where
    absent : (key : Str) → k ≡ key → slice_of (get key m) ≡ []
    absent key e = rw (← e) (rw (d.0))

-- The manager after a queued task has been taken out.
module _ (tm : TaskManager) (id key : Str) (q' : List Task) (t : Task) (v : IsValid tm)
    (r : Removes id (queue_at tm key) q' t) where
  abbrev without : TaskManager
  without = record tm { queue = store_queue key q' tm.queue }

  queue_at-without : (j : Str) → queue_at without j ≡ (if str_eq key j then q' else queue_at tm j)
  unfolding queue_at
  queue_at-without j = get-store_queue key j q' tm.queue

  without-busy :
      length tm.active_tasks < tm.max_running
      → (j : Str) → get j tm.active_tasks ≡ none
      → queue_at without j ≡ []
  without-busy room j idle = elim (Bool-cases (str_eq key j)) [
    | inl y ↦ absurd (Removes-ne r (rw ((str_eq_iff key j).0 y) (v.busy room j idle)))
    | inr n ↦ rw (queue_at-without j, n) (v.busy room j idle)
  ]

  without-placed : (j : Str) (u : Task) → Elem u (queue_at without j) → key_of u ≡ j
  without-placed j u m = elim (Bool-cases (str_eq key j)) [
    | inl y ↦
        v.queue_placed key u (Removes-Elem r u (rw (queue_at-without j, y) at m))
        ∙ (str_eq_iff key j).0 y
    | inr n ↦ v.queue_placed j u (rw (queue_at-without j, n) at m)
  ]

  lane-without :
      (j : Str) → lane without j ≡ (if str_eq key j then active_at tm j ++ q' else lane tm j)
  unfolding lane
  lane-without j = elim (Bool-cases (str_eq key j)) [
    | inl y ↦ rw (queue_at-without j, y)
    | inr n ↦ rw (queue_at-without j, n)
  ]

  without-IsValid : IsValid without
  without-IsValid = record {
    active_distinct = v.active_distinct;
    queue_distinct = store_queue-Distinct key q' tm.queue v.queue_distinct;
    positive = v.positive;
    bounded = v.bounded;
    placed = v.placed;
    queue_placed = without-placed;
    no_empty = λ j. store_queue-no_empty key j q' tm.queue (v.no_empty j);
    busy = without-busy;
  }

-- Cancelling keeps the invariant, whatever the id and whatever the network answers.
pub cancel_task-IsValid :
    (tm : TaskManager) (stop_task : Str → Str → Option Str) (id : Str)
    → IsValid tm
    → IsValid (cancel_task tm stop_task id).0
unfolding cancel_task cancel_found
cancel_task-IsValid tm stop_task id v = elim (find_queued_cases id tm.queue v.queue_distinct) [
  | inl (e, _) ↦ rw e v
  | inr (key, q', t, e, r) ↦ rw e (without-IsValid tm id key q' t v (unfold queue_at in r))
]

-- Cancelling starts and ends nothing.
pub cancel_task-active :
    (tm : TaskManager) (stop_task : Str → Str → Option Str) (id : Str)
    → let tm' = (cancel_task tm stop_task id).0 in
      (tm'.active_tasks ≡ tm.active_tasks) × (tm'.stopped ≡ tm.stopped)
unfolding cancel_task cancel_found
cancel_task-active tm stop_task id = elim (Option-cases (find_queued id tm.queue)) [
  | inl e ↦ rw e (refl, refl)
  | inr (r, e) ↦ rw e (refl, refl)
]

-- In a valid manager cancelling an id that some queue holds succeeds, takes the first task with that id out of one lane
-- and leaves what is active and every other lane as they were.
pub cancel_task_queued :
    (tm : TaskManager) (stop_task : Str → Str → Option Str) (id lane_key : Str) (u : Task)
    → IsValid tm
    → Elem u (queue_at tm lane_key)
    → u.id ≡ id
    → let r = cancel_task tm stop_task id in
      (key : Str) × (q' : List Task) × (t : Task) × Removes id (queue_at tm key) q' t
      × (r.2 ≡ none)
      × (r.0.active_tasks ≡ tm.active_tasks)
      × ((j : Str) → lane r.0 j ≡ (if str_eq key j then active_at tm j ++ q' else lane tm j))
unfolding cancel_task cancel_found
cancel_task_queued tm stop_task id lane_key u v m named =
    elim (find_queued_cases id tm.queue v.queue_distinct) [
      | inl (e, lacks) ↦ absurd (lacks lane_key u (unfold queue_at in m) named)
      | inr (key, q', t, e, r) ↦ (
        key,
        q',
        t,
        (unfold queue_at in r),
        rw e refl,
        rw e refl,
        λ j. rw e (lane-without tm id key q' t v (unfold queue_at in r) j),
      )
    ]
