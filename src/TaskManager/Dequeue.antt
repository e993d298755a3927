-- ===== src/TaskManager/Dequeue.antt =====
-- What `dequeueNextStartableLocked` starts, and when it starts nothing.
use pvetui.Base.{
  ◌≤◌, ◌<◌, List, [], ◌∷◌, Option, none, some, false, Str, str_eq, str_eq_iff, str_lt,
  str_lt_irrefl, get, keys, length, leb→le, leb-false→lt, Elem, Elem-filter, filter-Elem,
  Elem-sort_strings, Sorted, sort_strings-Sorted, get-mem_keys, leb, ◌≡◌, ◌≢◌, refl, arith, ◌⊎◌,
  inl, inr, Bool-cases, Option-cases, not,
}
use pvetui.TaskManager.{
  TaskManager, Task, queue_at, slice_of, started, start_front, try_start_for_key, or_else, try_keys,
  try_preferred, other_keys, dequeued, dequeue_next_startable,
}

-- The lane can give a task: one is queued there and none is active.
abbrev pub Startable : TaskManager → Str → Type 0
Startable tm key = (get key tm.active_tasks ≡ none) × (queue_at tm key ≢ [])

-- The head of the lane `key` was started.
pub record Starts (tm : TaskManager) (key : Str) (r : TaskManager × Task) : Type 0 where
  pub rest : List Task
  pub idle : get key tm.active_tasks ≡ none
  pub head : queue_at tm key ≡ r.1 ∷ rest
  pub result : r.0 ≡ started tm key r.1 rest

pub try_start_cases :
    (tm : TaskManager) (key : Str)
    → ((try_start_for_key tm key ≡ none) × ¬ Startable tm key)
      ⊎ ((r : TaskManager × Task) × (try_start_for_key tm key ≡ some r) × Starts tm key r)
unfolding try_start_for_key queue_at
try_start_cases tm key = elim (Option-cases (get key tm.active_tasks)) [
  | inr (t, e) ↦ inl (rw (e, start_front), λ s. cc (s.0))
  | inl e ↦ by_queue (slice_of (get key tm.queue)) refl e
]
  where
    by_queue :
        (q : List Task)
        → slice_of (get key tm.queue) ≡ q
        → get key tm.active_tasks ≡ none
        → ((try_start_for_key tm key ≡ none) × ¬ Startable tm key)
          ⊎ ((r : TaskManager × Task) × (try_start_for_key tm key ≡ some r) × Starts tm key r)
    by_queue [] h e = inl (rw (e, h), λ s. s.1 h)
    by_queue (t ∷ ts) h e = inr (
      (started tm key t ts, t),
      rw (e, h),
      record { rest = ts; idle = e; head = h; result = refl },
    )

try_keys_cases :
    (tm : TaskManager) (ks : List Str)
    → Sorted ks
    → ((try_keys tm ks ≡ none) × ((k : Str) → Elem k ks → ¬ Startable tm k))
      ⊎ ((k : Str) × (r : TaskManager × Task) × Elem k ks
          × (try_keys tm ks ≡ some r)
          × Starts tm k r
          × ((j : Str) → Elem j ks → Startable tm j → str_lt j k ≡ false))
unfolding try_keys
try_keys_cases tm [] sorted = inl (refl, λ k e. absurd e)
try_keys_cases tm (key ∷ ks) sorted = elim (try_start_cases tm key) [
  | inr (r, e, s) ↦ inr (
    key,
    r,
    inl refl,
    rw e,
    s,
    λ j m _. elim m [ inl p ↦ rw p (str_lt_irrefl j) | inr p ↦ sorted.0 j p ],
  )
  | inl (e, n) ↦ elim (try_keys_cases tm ks sorted.1) [
    | inl (e', n') ↦ inl (rw e e', λ k m. elim m [ inl p ↦ rw p at n | inr p ↦ n' k p ])
    | inr (k, r, m, e', s, least) ↦ inr (
      k,
      r,
      inr m,
      rw e e',
      s,
      λ j m' st. elim m' [ inl p ↦ absurd (n (rw (← p) at st)) | inr p ↦ least j p st ],
    )
  ]
]

queue_at-mem_keys : (tm : TaskManager) (key : Str) → queue_at tm key ≢ [] → Elem key (keys tm.queue)
unfolding queue_at
queue_at-mem_keys tm key h = elim (Option-cases (get key tm.queue)) [
  | inl e ↦ absurd (h (rw e refl))
  | inr (q, e) ↦ get-mem_keys key q tm.queue e
]

Startable-other_keys :
    (tm : TaskManager) (preferred key : Str)
    → key ≢ preferred
    → Startable tm key
    → Elem key (other_keys tm preferred)
unfolding other_keys
Startable-other_keys tm preferred key ne s =
    (Elem-sort_strings key _).1 (
      Elem-filter _ key _ (ground (arith, str_eq_iff key preferred)) (queue_at-mem_keys tm key s.1))

other_keys-ne :
    (tm : TaskManager) (preferred key : Str) → Elem key (other_keys tm preferred) → key ≢ preferred
unfolding other_keys
other_keys-ne tm preferred key m e =
    let f =
      (filter-Elem (λ x. not (str_eq x preferred)) key (keys tm.queue)
        ((Elem-sort_strings key _).0 m)).1 in
    ground (arith, f, str_eq_iff key preferred)

-- Every outcome of the search for a next task.
pub data Dequeues (tm : TaskManager) (preferred : Str) : TaskManager × Option Task → Type 0 where
  full : tm.max_running ≤ length tm.active_tasks → Dequeues tm preferred (tm, none)
  nothing :
      length tm.active_tasks < tm.max_running
      → ((k : Str) → ¬ Startable tm k)
      → Dequeues tm preferred (tm, none)
  starts :
      (key : Str) (next : Task) (rest : List Task)
      → length tm.active_tasks < tm.max_running
      → get key tm.active_tasks ≡ none
      → queue_at tm key ≡ next ∷ rest
      → (Startable tm preferred → key ≡ preferred)
      → (key ≢ preferred → (j : Str) → Startable tm j → str_lt j key ≡ false)
      → Dequeues tm preferred (started tm key next rest, some next)

dequeued-Starts :
    (tm : TaskManager) (preferred key : Str) (r : TaskManager × Task)
    → length tm.active_tasks < tm.max_running
    → Starts tm key r
    → (Startable tm preferred → key ≡ preferred)
    → (key ≢ preferred → (j : Str) → Startable tm j → str_lt j key ≡ false)
    → Dequeues tm preferred (r.0, some r.1)
dequeued-Starts tm preferred key r room s first least =
    rw (s.result) (starts key r.1 s.rest room s.idle s.head first least)

try_preferred_lem :
    (tm : TaskManager) (key : Str) → key ≢ [] → try_preferred tm key ≡ try_start_for_key tm key
unfolding try_preferred
try_preferred_lem tm key h = ground (arith, str_eq_iff key [])

module _ (tm : TaskManager) (preferred : Str) (named : preferred ≢ []) where
  searched-Dequeues :
      length tm.active_tasks < tm.max_running
      → Dequeues tm preferred (
          dequeued tm
            (or_else (try_preferred tm preferred) (try_keys tm (other_keys tm preferred))))
  searched-Dequeues room =
      rw (try_preferred_lem tm preferred named) (elim (try_start_cases tm preferred) [
        | inr (r, e, s) ↦
            rw e
              (dequeued-Starts tm preferred preferred r room s (λ _. refl) (λ h. absurd (h refl)))
        | inl (e, n) ↦ rw e (elim (try_keys_cases tm (other_keys tm preferred) sorted) [
          | inl (e', n') ↦ rw e' (nothing room (none_left n n'))
          | inr (k, r, m, e', s, least) ↦ rw e' (
              dequeued-Starts tm preferred k r room s (λ p. absurd (n p))
                (λ _ j st. least j (Startable-other_keys tm preferred j (differs n j st) st) st))
        ])
      ])
    where
      sorted : Sorted (other_keys tm preferred)
      sorted = unfold other_keys in sort_strings-Sorted _

      differs : ¬ Startable tm preferred → (j : Str) → Startable tm j → j ≢ preferred
      differs n j st e = n (rw e at st)

      none_left :
          ¬ Startable tm preferred
          → ((k : Str) → Elem k (other_keys tm preferred) → ¬ Startable tm k)
          → (k : Str) → ¬ Startable tm k
      none_left n n' k st = n' k (Startable-other_keys tm preferred k (differs n k st) st) st

  -- For a preferred key that is not empty the outcome is one of three: the cap is reached; no lane can give a task; or one lane's head is
  -- started, of the preferred lane if that can give one, and else of the least lane that can.
  pub dequeue-Dequeues : Dequeues tm preferred (dequeue_next_startable tm preferred)
  unfolding dequeue_next_startable
  dequeue-Dequeues = elim (Bool-cases (leb tm.max_running (length tm.active_tasks))) [
    | inl y ↦ rw y (full (leb→le _ _ y))
    | inr n ↦ rw n (searched-Dequeues (leb-false→lt _ _ n))
  ]
