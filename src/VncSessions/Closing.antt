-- ===== src/VncSessions/Closing.antt =====
-- What ends a session: CloseSession, CloseAllSessions, the cleanups, the manager's Shutdown and the
-- monitor of a session. A session is closed where it stands in the map, and then taken out of it.
-- `stop` is what a server's Stop answers, by the ID of its session.
use pvetui.Base.{
  ℕ, List, [], ◌∷◌, ◌++◌, Option, none, some, false, ◌&&◌, Str, if◌then◌else◌, Dict, get, put,
  delete, map, ◌==◌, ◌≡◌, refl, delete_overwritten,
}
use pvetui.VncSessions.{
  SessionManager, VncSession, Effect, shuts, shut, notify_session_count_change, is_expired,
  is_disconnected,
}

pub data CloseError : Type 0 where
  session_not_found : Str → CloseError
  stop_failed : Str → CloseError

-- Shutdown of the session that the map has under the ID.
abbrev shut_found_at : Str → Option VncSession → Dict VncSession → Dict VncSession
shut_found_at id none m = m
shut_found_at id (some s) m = put id (shut s) m

unfoldable pub shut_at : Str → Dict VncSession → Dict VncSession
unfolding get put shut
shut_at id m = shut_found_at id (get id m) m

-- Shutdown of every session of the map.
unfoldable pub shut_all : Dict VncSession → Dict VncSession
unfolding shut
shut_all [] = []
shut_all ((id, s) ∷ m) = (id, shut s) ∷ shut_all m

abbrev pub close_found :
    SessionManager
    → Str
    → Option Str
    → Option VncSession
    → SessionManager × List Effect × Option CloseError
close_found sm session_id stop none = (sm, [], some (session_not_found session_id))
close_found sm session_id stop (some s) =
    let closed = record sm { sessions = shut_at session_id sm.sessions } in
    let sm' = record closed { sessions = delete session_id closed.sessions } in
    (
      sm',
      shuts (shut s) ∷ notify_session_count_change sm',
      elim stop [ none ↦ none | some e ↦ some (stop_failed e) ],
    )

unfoldable pub close_session :
    SessionManager → Str → Option Str → SessionManager × List Effect × Option CloseError
unfolding get delete shut shut_at notify_session_count_change
close_session sm session_id stop = close_found sm session_id stop (get session_id sm.sessions)

-- The errors of all the servers, under the IDs of their sessions.
unfoldable pub stop_errors : (Str → Option Str) → Dict VncSession → List (Str × Str)
stop_errors stop [] = []
stop_errors stop ((id, s) ∷ m) =
    let rest = stop_errors stop m in elim (stop s.id) [ none ↦ rest | some e ↦ (id, e) ∷ rest ]

abbrev pub shuts_of : Dict VncSession → List Effect
shuts_of m = map (λ e. shuts (shut e.1)) m

unfoldable pub close_all_sessions :
    SessionManager → (Str → Option Str) → SessionManager × List Effect × List (Str × Str)
unfolding stop_errors shut shut_all notify_session_count_change
close_all_sessions sm stop =
    let closed = record sm { sessions = shut_all sm.sessions } in
    let sm' = record closed { sessions = [] } in
    (sm', shuts_of sm.sessions ++ notify_session_count_change sm', stop_errors stop sm.sessions)

unfoldable pub shutdown_manager :
    SessionManager → (Str → Option Str) → SessionManager × List Effect × List (Str × Str)
unfolding stop_errors shut shut_all
shutdown_manager sm stop =
    let closed = record sm { sessions = shut_all sm.sessions } in
    (record closed { sessions = [] }, shuts_of sm.sessions, stop_errors stop sm.sessions)

unfoldable pub expired_sessions : ℕ → ℕ → Dict VncSession → List Str
unfolding is_expired
expired_sessions timeout now [] = []
expired_sessions timeout now ((id, s) ∷ m) =
    let rest = expired_sessions timeout now m in
    if is_expired s timeout now then id ∷ rest else rest

-- The loop over the IDs that were found.
unfoldable pub remove_sessions : List Str → Dict VncSession → Dict VncSession
unfolding delete shut_at
remove_sessions [] m = m
remove_sessions (id ∷ ids) m = remove_sessions ids (delete id (shut_at id m))

abbrev pub shut_found : Option VncSession → List Effect
shut_found none = []
shut_found (some s) = shuts (shut s) ∷ []

unfoldable pub shut_sessions : List Str → Dict VncSession → List Effect
unfolding get delete shut
shut_sessions [] m = []
shut_sessions (id ∷ ids) m = shut_found (get id m) ++ shut_sessions ids (delete id m)

unfoldable pub cleanup_inactive_sessions : SessionManager → ℕ → ℕ → SessionManager × List Effect
unfolding expired_sessions remove_sessions shut_sessions notify_session_count_change
cleanup_inactive_sessions sm max_age now =
    let expired = expired_sessions max_age now sm.sessions in
    let sm' = record sm { sessions = remove_sessions expired sm.sessions } in
    let done : SessionManager × List Effect =
      (sm', shut_sessions expired sm.sessions ++ notify_session_count_change sm') in
    elim expired [ [] ↦ (sm, []) | _ ∷ _ ↦ done ]

unfoldable pub cleanup_expired_sessions : SessionManager → ℕ → SessionManager × List Effect
unfolding expired_sessions remove_sessions shut_sessions
cleanup_expired_sessions sm now =
    let expired = expired_sessions sm.session_timeout now sm.sessions in
    (
      record sm { sessions = remove_sessions expired sm.sessions },
      shut_sessions expired sm.sessions,
    )

-- The monitor after the grace period, on the session that the map has under the ID.
abbrev pub check_found : SessionManager → Str → Option VncSession → SessionManager × List Effect
check_found sm id none = (sm, [])
check_found sm id (some s) =
    let closed = record sm { sessions = shut_at id sm.sessions } in
    let sm' = record closed { sessions = delete id closed.sessions } in
    if s.active_connections == 0 && is_disconnected s.state
    then (sm', shuts (shut s) ∷ notify_session_count_change sm')
    else (sm, [])

unfoldable pub check_disconnected : SessionManager → Str → SessionManager × List Effect
unfolding get delete shut shut_at notify_session_count_change
check_disconnected sm id = check_found sm id (get id sm.sessions)

-- A change of the session under an ID, where there is one.
abbrev pub change_found :
    SessionManager → Str → (VncSession → VncSession) → Option VncSession → SessionManager
change_found sm id f none = sm
change_found sm id f (some s) = record sm { sessions = put id (f s) sm.sessions }

abbrev pub change_session : SessionManager → Str → (VncSession → VncSession) → SessionManager
change_session sm id f = change_found sm id f (get id sm.sessions)

-- The monitor takes the signal out of the channel.
abbrev pub take_signal : VncSession → VncSession
take_signal s = record s { signalled = false }

-- A session that is taken out of the map leaves the same map whether it was closed before or not.
pub delete-shut_at : (id : Str) (m : Dict VncSession) → delete id (shut_at id m) ≡ delete id m
unfolding shut_at
delete-shut_at id m = by_found (get id m)
  where
    by_found : (o : Option VncSession) → delete id (shut_found_at id o m) ≡ delete id m
    by_found none = refl
    by_found (some s) = delete_overwritten id (shut s) m
