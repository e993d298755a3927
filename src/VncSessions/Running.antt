-- ===== src/VncSessions/Running.antt =====
-- The session manager with its callers, its monitors and the clients of its servers: what they do, one
-- call at a time.
use pvetui.Base.{Bool, ℕ, List, [], ◌∷◌, Option, Str, get, put}
use pvetui.VncSessions.{
  set_session_count_callback, SessionManager, Node, Started, on_client_connected,
  on_client_disconnected,
}
use pvetui.VncSessions.Opening.{create_session}
use pvetui.VncSessions.Closing.{
  close_session, close_all_sessions, shutdown_manager, cleanup_inactive_sessions,
  cleanup_expired_sessions, check_disconnected, change_session, take_signal,
}

-- One call: of the interface, of the client of a session's server, of a session's monitor before and
-- after its grace period, or of the ticker.
pub data Call : Type 0 where
  creates : Option (List Node) → Str → Str → Str → Str → Started → ℕ → Call
  connects : Str → ℕ → Call
  disconnects : Str → Call
  receives : Str → Call
  checks : Str → Call
  cleans : ℕ → Call
  cleans_inactive : ℕ → ℕ → Call
  closes : Str → Option Str → Call
  closes_all : (Str → Option Str) → Call
  shuts_down : (Str → Option Str) → Call
  sets_callback : Bool → Call

unfoldable pub perform : SessionManager → Call → SessionManager
unfolding create_session on_client_connected on_client_disconnected check_disconnected
    cleanup_expired_sessions cleanup_inactive_sessions close_session close_all_sessions
    shutdown_manager set_session_count_callback get put
perform sm (creates cluster session_type node_name vmid target_name answer now) =
    (create_session sm cluster session_type node_name vmid target_name answer now).0
perform sm (connects id now) = change_session sm id (λ s. on_client_connected s now)
perform sm (disconnects id) = change_session sm id on_client_disconnected
perform sm (receives id) = change_session sm id take_signal
perform sm (checks id) = (check_disconnected sm id).0
perform sm (cleans now) = (cleanup_expired_sessions sm now).0
perform sm (cleans_inactive max_age now) = (cleanup_inactive_sessions sm max_age now).0
perform sm (closes id stop) = (close_session sm id stop).0
perform sm (closes_all stop) = (close_all_sessions sm stop).0
perform sm (shuts_down stop) = (shutdown_manager sm stop).0
perform sm (sets_callback callback) = set_session_count_callback sm callback

unfoldable pub run : SessionManager → List Call → SessionManager
unfolding perform
run sm [] = sm
run sm (c ∷ cs) = run (perform sm c) cs
