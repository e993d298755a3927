-- ===== src/VncSessions/Sound.antt =====
-- What holds of the sessions after any calls.
use pvetui.Base.{
  ℕ, List, [], ◌∷◌, Option, ◌&&◌, Str, get, delete, put-Distinct, delete-Distinct, ◌⊎◌, inl, inr,
  refl, Bool-cases, Option-cases, ◌==◌, ℤ,
}
use pvetui.VncSessions.{
  set_session_count_callback, SessionManager, VncSession, Effect, Node, Started, CreateError,
  find_reusable, key_for, new_session_manager, is_disconnected,
}
use pvetui.VncSessions.Opening.{create_session, store_session, new_session, start_server}
use pvetui.VncSessions.Finding.{find_reusable_found}
use pvetui.VncSessions.Closing.{
  close_session, close_all_sessions, shutdown_manager, cleanup_inactive_sessions,
  cleanup_expired_sessions, remove_sessions, expired_sessions, check_disconnected, take_signal,
  delete-shut_at,
}
use pvetui.VncSessions.Running.{
  Call, perform, run, creates, connects, disconnects, receives, checks, cleans, cleans_inactive,
  closes, closes_all, shuts_down, sets_callback,
}
use pvetui.VncSessions.Live.{
  IsLive, AreLive, put-AllLive, none-AllLive, delete-AllLive, remove_sessions-AreLive,
  change_session-AreLive, connected-IsLive, disconnected-IsLive, reactivated-IsLive,
}

store_session-AreLive :
    (sm : SessionManager) (session_type node_name vmid target_name : Str) (now : ℕ)
    (answer : CreateError ⊎ (Str × ℤ))
    → AreLive sm
    → AreLive (store_session sm (new_session session_type node_name vmid target_name now) answer).0
store_session-AreLive sm session_type node_name vmid target_name now (inl e) h = h
store_session-AreLive sm session_type node_name vmid target_name now (inr (url, port)) h = (
  put-Distinct _ _ sm.sessions h.0,
  put-AllLive _ _ sm.sessions h.1 (record { has_id = refl; fits = refl; channel = refl }),
)

create_session-AreLive :
    (sm : SessionManager) (cluster : Option (List Node))
    (session_type node_name vmid target_name : Str) (answer : Started) (now : ℕ)
    → AreLive sm
    → AreLive (create_session sm cluster session_type node_name vmid target_name answer now).0
unfolding create_session
create_session-AreLive sm cluster session_type node_name vmid target_name answer now h =
    elim (Option-cases
      (find_reusable sm.sessions (key_for session_type node_name vmid) sm.session_timeout now)) [
        | inl e ↦ rw e (
            store_session-AreLive sm session_type node_name vmid target_name now
              (start_server cluster session_type node_name vmid answer) h)
        | inr (s, e) ↦
            let (id, g, c) =
              find_reusable_found sm.sessions (key_for session_type node_name vmid)
                sm.session_timeout now s h.0 e in
            rw e (
              put-Distinct s.id _ sm.sessions h.0,
              put-AllLive s.id _ sm.sessions h.1
                  (reactivated-IsLive s.id now s (own s id (h.1 id s g))),
            )
      ]
  where
    own : (s : VncSession) (id : Str) → IsLive id s → IsLive s.id s
    own s id live = record { has_id = refl; fits = live.fits; channel = live.channel }

removed-AreLive :
    (sm : SessionManager) (id : Str)
    → AreLive sm
    → AreLive (record sm { sessions = delete id sm.sessions })
removed-AreLive sm id h = (delete-Distinct id sm.sessions h.0, delete-AllLive id sm.sessions h.1)

check_disconnected-AreLive :
    (sm : SessionManager) (id : Str) → AreLive sm → AreLive (check_disconnected sm id).0
unfolding check_disconnected
check_disconnected-AreLive sm id h = elim (Option-cases (get id sm.sessions)) [
  | inl e ↦ rw e h
  | inr (s, e) ↦ elim (Bool-cases (s.active_connections == 0 && is_disconnected s.state)) [
    | inl y ↦ rw (e, y, delete-shut_at id sm.sessions) (removed-AreLive sm id h)
    | inr n ↦ rw (e, n) h
  ]
]

close_session-AreLive :
    (sm : SessionManager) (id : Str) (stop : Option Str)
    → AreLive sm
    → AreLive (close_session sm id stop).0
unfolding close_session
close_session-AreLive sm id stop h = elim (Option-cases (get id sm.sessions)) [
  | inl e ↦ rw e h
  | inr (s, e) ↦ rw (e, delete-shut_at id sm.sessions) (removed-AreLive sm id h)
]

cleanup_inactive_sessions-AreLive :
    (sm : SessionManager) (max_age now : ℕ)
    → AreLive sm
    → AreLive (cleanup_inactive_sessions sm max_age now).0
unfolding cleanup_inactive_sessions
cleanup_inactive_sessions-AreLive sm max_age now h =
    by_ids (expired_sessions max_age now sm.sessions) _
  where
    by_ids :
        (ids : List Str) (effects : List Effect)
        → let done : SessionManager × List Effect =
            (record sm { sessions = remove_sessions ids sm.sessions }, effects) in
          AreLive
            (elim ids as (λ _. SessionManager × List Effect) [ [] ↦ (sm, []) | _ ∷ _ ↦ done ]).0
    by_ids [] effects = h
    by_ids (id ∷ ids) effects = remove_sessions-AreLive (id ∷ ids) sm.sessions h

perform-AreLive : (sm : SessionManager) (c : Call) → AreLive sm → AreLive (perform sm c)
unfolding perform cleanup_expired_sessions close_all_sessions shutdown_manager
    set_session_count_callback
perform-AreLive sm (creates cluster session_type node_name vmid target_name answer now) h =
    create_session-AreLive sm cluster session_type node_name vmid target_name answer now h
perform-AreLive sm (connects id now) h = change_session-AreLive sm id _ (connected-IsLive id now) h
perform-AreLive sm (disconnects id) h = change_session-AreLive sm id _ (disconnected-IsLive id) h
perform-AreLive sm (receives id) h =
    change_session-AreLive sm id take_signal
      (λ s live. record { has_id = live.has_id; fits = live.fits; channel = live.channel }) h
perform-AreLive sm (checks id) h = check_disconnected-AreLive sm id h
perform-AreLive sm (cleans now) h =
    remove_sessions-AreLive (expired_sessions sm.session_timeout now sm.sessions) sm.sessions h
perform-AreLive sm (cleans_inactive max_age now) h =
    cleanup_inactive_sessions-AreLive sm max_age now h
perform-AreLive sm (closes id stop) h = close_session-AreLive sm id stop h
perform-AreLive sm (closes_all stop) h = (tt, none-AllLive)
perform-AreLive sm (shuts_down stop) h = (tt, none-AllLive)
perform-AreLive sm (sets_callback callback) h = h

run_from : (sm : SessionManager) (cs : List Call) → AreLive sm → AreLive (run sm cs)
unfolding run
run_from sm [] h = h
run_from sm (c ∷ cs) h = run_from (perform sm c) cs (perform-AreLive sm c h)

-- After any calls on a new manager, Shutdown included, in any order and at any times: the map has each
-- session once, under its own ID, a session that was closed where it stood in the map has been taken out
-- of it, and a session is connected exactly while it has clients.
pub run-AreLive : (cs : List Call) → AreLive (run new_session_manager cs)
unfolding new_session_manager
run-AreLive cs = run_from new_session_manager cs (tt, none-AllLive)
