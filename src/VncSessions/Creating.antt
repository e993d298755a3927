-- ===== src/VncSessions/Creating.antt =====
-- What CreateSession does on each branch, and what it does to a session that it overwrites.
use pvetui.Base.{
  ℕ, List, [], ◌∷◌, ◌++◌, Option, none, some, Bool, true, false, ◌&&◌, Str, str_eq_iff,
  if◌then◌else◌, get, put, delete-put, get-put, length-put, ◌≡◌, ◌⊎◌, inl, inr, refl, sym, subst,
  arith, Bool-cases, Option-cases, ℤ, Elem, ◌==◌,
}
use pvetui.VncSessions.{
  SessionManager, VncSession, SessionState, Effect, monitors, shuts, Node, Started, Created,
  CreateError, find_reusable, key_for, get_target_key, is_reusable, is_state_reusable,
  is_disconnected, is_expired, session_count, notify_session_count_change, opened, refused,
}
use pvetui.VncSessions.Opening.{create_session, reactivated, new_session, start_server, session_id}
use pvetui.VncSessions.Closing.{close_session, check_disconnected, check_found, delete-shut_at}
use pvetui.VncSessions.Finding.{is_candidate, find_reusable_found, find_reusable_nothing}
use pvetui.VncSessions.Live.{Fits, AreLive}

-- A call shuts no session down.
abbrev pub ShutsNone : List Effect → Type 0
ShutsNone effects = (s : VncSession) → Elem (shuts s) effects → ⊥

told :
    (sm' : SessionManager) (id : Str)
    → ShutsNone (notify_session_count_change sm' ++ monitors id ∷ [])
unfolding notify_session_count_change
told sm' id s e = elim (Bool-cases sm'.has_callback) [
  | inl y ↦ elim (rw y at e) [ inl a ↦ cc | inr (inl b) ↦ cc | inr (inr c) ↦ absurd c ]
  | inr n ↦ elim (rw n at e) [ inl a ↦ cc | inr b ↦ absurd b ]
]

module _ (sm : SessionManager) (cluster : Option (List Node))
    (session_type node_name vmid target_name : Str) (answer : Started) (now : ℕ) where
  abbrev key : Str
  key = key_for session_type node_name vmid

  abbrev pub creation : SessionManager × List Effect × Created
  creation = create_session sm cluster session_type node_name vmid target_name answer now

  abbrev pub at : Str → ℤ → VncSession
  at url port = record (new_session session_type node_name vmid target_name now) {
    port = port;
    url = url;
  }

  -- No session of the map may be used again.
  abbrev pub NoCandidate : Type 0
  NoCandidate =
      (id : Str) (s : VncSession)
      → get id sm.sessions ≡ some s
      → is_candidate key sm.session_timeout now s ≡ false

  abbrev pub Reuses : Type 0
  Reuses =
      (s : VncSession) × (get s.id sm.sessions ≡ some s)
      × (get_target_key s ≡ key)
      × (s.active_connections ≡ 0)
      × (is_expired s sm.session_timeout now ≡ false)
      × (let s' = record s { last_used = now; state = SessionState.active } in
          creation ≡ (record sm { sessions = put s.id s' sm.sessions }, [], opened s'))

  abbrev pub Starts : Type 0
  Starts =
      (url : Str) × (port : ℤ) × (start_server cluster session_type node_name vmid answer
        ≡ inr (url, port))
      × (let sm' = record sm { sessions = put (session_id now key) (at url port) sm.sessions } in
          creation ≡ (
            sm',
            notify_session_count_change sm' ++ monitors (session_id now key) ∷ [],
            opened (at url port),
          ))

  abbrev pub Refuses : Type 0
  Refuses =
      (e : CreateError) × (start_server cluster session_type node_name vmid answer ≡ inl e)
      × (creation ≡ (sm, [], refused e))

  to_active :
      (state : SessionState)
      → is_state_reusable state ≡ true
      → (if is_disconnected state then SessionState.active else state) ≡ SessionState.active
  to_active SessionState.active h = refl
  to_active SessionState.disconnected h = refl
  to_active SessionState.connected h = cc
  to_active SessionState.closed h = cc

  no_clients :
      (state : SessionState) (n : ℕ) → Fits state n → is_state_reusable state ≡ true → n ≡ 0
  no_clients SessionState.active n f h = f
  no_clients SessionState.disconnected n f h = f
  no_clients SessionState.connected n f h = cc
  no_clients SessionState.closed n f h = cc

  -- CreateSession in a sound manager either gives a session of the map, for the same target, without
  -- clients and not too long out of use, which becomes active again; or there is no such session, and
  -- it either stores a new one, tells the number of sessions and starts a monitor, or fails and
  -- changes nothing.
  pub create_session_cases : AreLive sm → Reuses ⊎ (NoCandidate × (Starts ⊎ Refuses))
  unfolding create_session
  create_session_cases h =
      elim (Option-cases (find_reusable sm.sessions key sm.session_timeout now)) [
        | inl e ↦ inr (
          find_reusable_nothing sm.sessions key sm.session_timeout now e,
          elim (outcome (start_server cluster session_type node_name vmid answer)) [
            | inl (x, f) ↦ inr (x, f, rw (e, f) refl)
            | inr (url, port, f) ↦ inl (url, port, f, rw (e, f) refl)
          ],
        )
        | inr (s, e) ↦
            let (id, g, c) = find_reusable_found sm.sessions key sm.session_timeout now s h.0 e in
            inl (
              s,
              subst (λ i. get i sm.sessions ≡ some s) (sym (h.1 id s g).has_id) g,
              (str_eq_iff (get_target_key s) key).0 (ground (arith, c)),
              no_clients s.state s.active_connections (h.1 id s g).fits (reusable s c),
              ground (arith, c),
              rw (e, to_active s.state (reusable s c)) refl,
            )
      ]
    where
      outcome :
          (o : CreateError ⊎ (Str × ℤ))
          → ((x : CreateError) × (o ≡ inl x)) ⊎ ((url : Str) × (port : ℤ) × (o ≡ inr (url, port)))
      outcome (inl x) = inl (x, refl)
      outcome (inr (url, port)) = inr (url, port, refl)

      reusable :
          (s : VncSession)
          → is_candidate key sm.session_timeout now s ≡ true
          → is_state_reusable s.state ≡ true
      reusable s c = unfold is_reusable in ground (arith, c)

  -- Where no session may be used again and the server starts, CreateSession does what Starts says.
  starts :
      (url : Str) (port : ℤ)
      → find_reusable sm.sessions key sm.session_timeout now ≡ none
      → start_server cluster session_type node_name vmid answer ≡ inr (url, port)
      → let sm' = record sm { sessions = put (session_id now key) (at url port) sm.sessions } in
        creation ≡ (
          sm',
          notify_session_count_change sm' ++ monitors (session_id now key) ∷ [],
          opened (at url port),
        )
  unfolding create_session
  starts url port e f = rw (e, f) refl

  -- A session created in the second in which another one for the same target was, while that one has a
  -- client, takes its place in the map: the map has as many sessions as before, under the ID is a
  -- session without clients, and nothing shuts the session that was there down.
  create_session_overwrites :
      (connected : VncSession) (url : Str) (port : ℤ)
      → get (session_id now key) sm.sessions ≡ some connected
      → find_reusable sm.sessions key sm.session_timeout now ≡ none
      → start_server cluster session_type node_name vmid answer ≡ inr (url, port)
      → (session_count creation.0 ≡ session_count sm)
        × (get (session_id now key) creation.0.sessions ≡ some (at url port))
        × ShutsNone creation.1
  create_session_overwrites connected url port g e f = (
    rw (starts url port e f, length-put (session_id now key) (at url port) sm.sessions, g) refl,
    rw
        (
          starts url port e f,
          get-put (session_id now key) (session_id now key) (at url port) sm.sessions,
          (str_eq_iff (session_id now key) (session_id now key)).1 refl,
        )
        refl,
    rw (starts url port e f) (told _ (session_id now key)),
  )

  -- Closing the session that was just created, under an ID that was free, leaves the manager as it was.
  close_session-create_session :
      (url : Str) (port : ℤ) (stop : Option Str)
      → get (session_id now key) sm.sessions ≡ none
      → find_reusable sm.sessions key sm.session_timeout now ≡ none
      → start_server cluster session_type node_name vmid answer ≡ inr (url, port)
      → (close_session creation.0 (session_id now key) stop).0 ≡ sm
  unfolding close_session
  close_session-create_session url port stop g e f =
      rw
        (
          starts url port e f,
          get-put (session_id now key) (session_id now key) (at url port) sm.sessions,
          (str_eq_iff (session_id now key) (session_id now key)).1 refl,
          delete-shut_at (session_id now key) (put (session_id now key) (at url port) sm.sessions),
          delete-put (session_id now key) (at url port) sm.sessions g,
        )
        refl

  -- A session that CreateSession gives again, while its monitor waits out the grace period after a
  -- disconnection, is not removed by that monitor.
  pub check_disconnected-create_session :
      (s : VncSession)
      → find_reusable sm.sessions key sm.session_timeout now ≡ some s
      → check_disconnected creation.0 s.id ≡ (creation.0, [])
  unfolding create_session check_disconnected
  check_disconnected-create_session s e =
      rw (e, get-put s.id s.id (reactivated s now) sm.sessions, (str_eq_iff s.id s.id).1 refl)
        (stays s.state)
    where
      not_again :
          (state : SessionState)
          → is_disconnected (if is_disconnected state then SessionState.active else state) ≡ false
      not_again SessionState.active = refl
      not_again SessionState.connected = refl
      not_again SessionState.disconnected = refl
      not_again SessionState.closed = refl

      never : (b : Bool) → b && false ≡ false
      never b = ground arith

      stays :
          (state : SessionState)
          → let s' = record s {
            last_used = now;
            state = if is_disconnected state then SessionState.active else state;
          } in
            let sm' = record sm { sessions = put s.id s' sm.sessions } in
            check_found sm' s.id (some s') ≡ (sm', [])
      stays state = rw (not_again state, never (s.active_connections == 0)) refl
