-- ===== src/VncSessions/Cleaning.antt =====
-- What the cleanups and the monitor of a session remove.
use pvetui.Base.{
  ℕ, List, [], ◌∷◌, ◌++◌, Option, none, some, Bool, true, false, ◌&&◌, ◌||◌, Str, str_eq,
  str_eq_iff, if◌then◌else◌, Dict, get, delete, Distinct, get-delete, ◌≡◌, ◌⊎◌, inl, inr, refl, ◌∙◌,
  arith, Bool-cases, Option-cases, ◌==◌, Elem,
}
use pvetui.VncSessions.{
  SessionManager, VncSession, SessionState, Effect, shuts, shut, is_expired, is_disconnected,
  notify_session_count_change,
}
use pvetui.VncSessions.Closing.{
  remove_sessions, expired_sessions, shut_sessions, shut_found, cleanup_expired_sessions,
  cleanup_inactive_sessions, check_disconnected, delete-shut_at,
}
use pvetui.VncSessions.Live.{Fits, AreLive}

-- The session, unless it has expired.
abbrev pub unexpired : ℕ → ℕ → Option VncSession → Option VncSession
unexpired timeout now none = none
unexpired timeout now (some s) = if is_expired s timeout now then none else some s

abbrev among : Str → List Str → Bool
among id [] = false
among id (x ∷ xs) = str_eq x id || among id xs

get-remove_sessions :
    (ids : List Str) (m : Dict VncSession) (id : Str)
    → get id (remove_sessions ids m) ≡ (if among id ids then none else get id m)
unfolding remove_sessions
get-remove_sessions [] m id = refl
get-remove_sessions (x ∷ ids) m id =
    rw (delete-shut_at x m)
      (ground (arith, get-remove_sessions ids (delete x m) id, get-delete x id m))

missing :
    (timeout now : ℕ) (m : Dict VncSession) (id : Str)
    → get id m ≡ none
    → among id (expired_sessions timeout now m) ≡ false
unfolding expired_sessions get
missing timeout now [] id e = refl
missing timeout now ((j, t) ∷ m) id e = ground (arith, missing timeout now m id)

among-expired_sessions :
    (timeout now : ℕ) (m : Dict VncSession) (id : Str) (s : VncSession)
    → Distinct m
    → get id m ≡ some s
    → among id (expired_sessions timeout now m) ≡ is_expired s timeout now
unfolding expired_sessions get
among-expired_sessions timeout now [] id s d e = cc
among-expired_sessions timeout now ((j, t) ∷ m) id s d e = ground (
  arith,
  str_eq_iff j id,
  missing timeout now m id,
  among-expired_sessions timeout now m id s d.1,
)

remaining :
    (timeout now : ℕ) (m : Dict VncSession) (id : Str)
    → Distinct m
    → get id (remove_sessions (expired_sessions timeout now m) m) ≡ unexpired timeout now (get id m)
remaining timeout now m id d =
    get-remove_sessions (expired_sessions timeout now m) m id ∙ by_session
  where
    by_session :
        (if among id (expired_sessions timeout now m) then none else get id m)
        ≡ unexpired timeout now (get id m)
    by_session = elim (Option-cases (get id m)) [
      | inl e ↦ rw (e, missing timeout now m id e) refl
      | inr (s, e) ↦ rw (e, among-expired_sessions timeout now m id s d e) refl
    ]

shut_sessions_lem :
    (ids : List Str) (m : Dict VncSession) (id : Str) (s : VncSession)
    → among id ids ≡ true
    → get id m ≡ some s
    → Elem (shuts (shut s)) (shut_sessions ids m)
unfolding shut_sessions
shut_sessions_lem [] m id s a e = cc
shut_sessions_lem (x ∷ ids) m id s a e = elim (Bool-cases (str_eq x id)) [
  | inl y ↦ rw ((str_eq_iff x id).0 y, e) (inl refl)
  | inr n ↦
      append_right (shut_found (get x m)) (shut_sessions ids (delete x m))
        (shut_sessions_lem ids (delete x m) id s (rw n at a) (get-delete x id m ∙ rw n e))
]
  where
    append_right :
        (xs ys : List Effect) → Elem (shuts (shut s)) ys → Elem (shuts (shut s)) (xs ++ ys)
    append_right [] ys i = i
    append_right (x ∷ xs) ys i = inr (append_right xs ys i)

-- The periodic cleanup shuts down and removes a session of a sound manager that was out of use for
-- longer than the timeout, and leaves every other one as it is.
pub cleanup_expired_sessions_cases :
    (sm : SessionManager) (now : ℕ) (id : Str) (s : VncSession)
    → AreLive sm
    → get id sm.sessions ≡ some s
    → let r = cleanup_expired_sessions sm now in
      ((is_expired s sm.session_timeout now ≡ true)
        × (get id r.0.sessions ≡ none)
        × Elem (shuts (shut s)) r.1)
      ⊎ ((is_expired s sm.session_timeout now ≡ false) × (get id r.0.sessions ≡ some s))
unfolding cleanup_expired_sessions
cleanup_expired_sessions_cases sm now id s h e =
    elim (Bool-cases (is_expired s sm.session_timeout now)) [
      | inl y ↦ inl (
        y,
        left ∙ rw (e, y) refl,
        shut_sessions_lem (expired_sessions sm.session_timeout now sm.sessions) sm.sessions id s
            (among-expired_sessions sm.session_timeout now sm.sessions id s h.0 e ∙ y) e,
      )
      | inr n ↦ inr (n, left ∙ rw (e, n) refl)
    ]
  where
    left :
        get id (remove_sessions (expired_sessions sm.session_timeout now sm.sessions) sm.sessions)
        ≡ unexpired sm.session_timeout now (get id sm.sessions)
    left = remaining sm.session_timeout now sm.sessions id h.0

-- CleanupInactiveSessions with the manager's timeout leaves the same sessions as the periodic cleanup
-- and shuts the same ones down; it also tells the number of sessions where it removed any.
cleanups_agree :
    (sm : SessionManager) (now : ℕ)
    → let inactive = cleanup_inactive_sessions sm sm.session_timeout now in
      let expired = cleanup_expired_sessions sm now in
      (inactive.0 ≡ expired.0)
      × (((inactive.1 ≡ []) × (expired.1 ≡ []))
          ⊎ (inactive.1 ≡ expired.1 ++ notify_session_count_change expired.0))
unfolding cleanup_inactive_sessions cleanup_expired_sessions
cleanups_agree sm now = by_ids (expired_sessions sm.session_timeout now sm.sessions)
  where
    by_ids :
        (ids : List Str)
        → let sm' = record sm { sessions = remove_sessions ids sm.sessions } in
          let done : SessionManager × List Effect =
            (sm', shut_sessions ids sm.sessions ++ notify_session_count_change sm') in
          let inactive = elim ids as (λ _. SessionManager × List Effect) [
            | [] ↦ (sm, [])
            | _ ∷ _ ↦ done
          ] in
          (inactive.0 ≡ sm')
          × (((inactive.1 ≡ []) × (shut_sessions ids sm.sessions ≡ []))
              ⊎ (inactive.1 ≡ shut_sessions ids sm.sessions ++ notify_session_count_change sm'))
    by_ids [] = (unfold remove_sessions in refl, inl (refl, unfold shut_sessions in refl))
    by_ids (id ∷ ids) = (refl, inr refl)

-- After the grace period the monitor of a session in a sound manager removes it and shuts it down where
-- its last client has left it and it was not taken up since; it does nothing else.
check_disconnected_cases :
    (sm : SessionManager) (id : Str) (s : VncSession)
    → AreLive sm
    → get id sm.sessions ≡ some s
    → let sm' = record sm { sessions = delete id sm.sessions } in
      ((s.state ≡ SessionState.disconnected)
        × (check_disconnected sm id ≡ (sm', shuts (shut s) ∷ notify_session_count_change sm')))
      ⊎ ((is_disconnected s.state ≡ false) × (check_disconnected sm id ≡ (sm, [])))
unfolding check_disconnected
check_disconnected_cases sm id s h e = elim (Bool-cases (is_disconnected s.state)) [
  | inl y ↦ inl (
    is_it s.state y,
    rw (e, idle s.state s.active_connections (h.1 id s e).fits y, y, delete-shut_at id sm.sessions)
        refl,
  )
  | inr n ↦ inr (n, rw (e, n, never (s.active_connections == 0)) refl)
]
  where
    is_it :
        (state : SessionState) → is_disconnected state ≡ true → state ≡ SessionState.disconnected
    is_it SessionState.active y = cc
    is_it SessionState.connected y = cc
    is_it SessionState.disconnected y = refl
    is_it SessionState.closed y = cc

    idle :
        (state : SessionState) (n : ℕ)
        → Fits state n
        → is_disconnected state ≡ true
        → (n == 0) ≡ true
    idle SessionState.active n f y = cc
    idle SessionState.connected n f y = cc
    idle SessionState.disconnected n f y = ground arith
    idle SessionState.closed n f y = cc

    never : (b : Bool) → b && false ≡ false
    never b = ground arith
