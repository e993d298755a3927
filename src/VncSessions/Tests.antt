-- ===== src/VncSessions/Tests.antt =====
-- Runs of the session manager at concrete inputs, and the theorems applied there.
use pvetui.Base.{
  [], ◌∷◌, ◌++◌, ◌*◌, Option, none, some, true, false, str, str_eq, itoa, ◌≡◌, ◌⊎◌, refl, inr, pos,
  get, Elem, Str, ℕ, List,
}
use pvetui.VncSessions.{
  SessionManager, VncSession, SessionState, shuts, shut, Node, Started, started_at,
  new_session_manager, session_count, key_for, find_reusable, is_expired,
}
use pvetui.VncSessions.Opening.{create_session, session_id, start_server}
use pvetui.VncSessions.Closing.{cleanup_expired_sessions, check_disconnected}
use pvetui.VncSessions.Running.{Call, creates, connects, disconnects, receives, checks, run}
use pvetui.VncSessions.Live.{AreLive}
use pvetui.VncSessions.Sound.{run-AreLive}
use pvetui.VncSessions.Creating.{
  Reuses, NoCandidate, Starts, Refuses, create_session_cases, check_disconnected-create_session,
}
use pvetui.VncSessions.Cleaning.{cleanup_expired_sessions_cases}

abbrev pve : Option (List Node)
pve = some (
    record {
      name = str "pve";
      vms = record { id = pos 7; name = str "web"; node = str "pve"; kind = str "qemu" } ∷ [];
    }
    ∷ [])

abbrev answer : Started
answer = started_at (str "http://localhost:1") (pos 1)

-- A second of the clock.
abbrev sec : ℕ → ℕ
sec n = n * 1000000000

abbrev create : ℕ → Call
create now = creates pve (str "node") (str "pve") [] (str "pve") answer now

abbrev the_id : Str
the_id = str "vnc_1_node:pve:"

abbrev used : List Call
used = create (sec 1) ∷ connects the_id (sec 1) ∷ []

abbrev left : List Call
left = create (sec 1) ∷ connects the_id (sec 2) ∷ disconnects the_id ∷ receives the_id ∷ []

taken_again :
    session_count (run new_session_manager (left ++ create (sec 4) ∷ checks the_id ∷ [])) ≡ 1
unfolding run new_session_manager str_eq
taken_again = refl

gone_after_grace : session_count (run new_session_manager (left ++ checks the_id ∷ [])) ≡ 0
unfolding run new_session_manager str_eq
gone_after_grace = refl

run-AreLive_example : AreLive (run new_session_manager used)
run-AreLive_example = run-AreLive used

abbrev used_manager : SessionManager
used_manager = run new_session_manager used

abbrev left_manager : SessionManager
left_manager = run new_session_manager left

abbrev node_session : ℕ → SessionState → ℕ → VncSession
node_session last_used state n = record {
  id = the_id;
  target_type = str "node";
  node_name = str "pve";
  vmid = [];
  target_name = str "pve";
  port = pos 1;
  url = str "http://localhost:1";
  created_at = sec 1;
  last_used = last_used;
  state = state;
  active_connections = n;
  signalled = false;
  has_channel = true;
}

abbrev in_use : VncSession
in_use = node_session (sec 1) SessionState.connected 1

abbrev out_of_use : VncSession
out_of_use = node_session (sec 2) SessionState.disconnected 0

in_use_stored : get the_id used_manager.sessions ≡ some in_use
unfolding run new_session_manager get str_eq itoa
in_use_stored = refl

out_of_use_stored : get the_id left_manager.sessions ≡ some out_of_use
unfolding run new_session_manager get str_eq itoa
out_of_use_stored = refl

create_session_cases_example :
    Reuses left_manager pve (str "node") (str "pve") [] (str "pve") answer (sec 4)
    ⊎ (NoCandidate left_manager pve (str "node") (str "pve") [] (str "pve") answer (sec 4)
        × (Starts left_manager pve (str "node") (str "pve") [] (str "pve") answer (sec 4)
            ⊎ Refuses left_manager pve (str "node") (str "pve") [] (str "pve") answer (sec 4)))
create_session_cases_example =
    create_session_cases left_manager pve (str "node") (str "pve") [] (str "pve") answer (sec 4)
      (run-AreLive left)

id_again :
    get (session_id (sec 1) (key_for (str "node") (str "pve") [])) used_manager.sessions
    ≡ some in_use
unfolding session_id run new_session_manager get str_eq itoa
id_again = refl

nothing_free :
    find_reusable used_manager.sessions
      (key_for (str "node") (str "pve") [])
      used_manager.session_timeout
      (sec 1)
    ≡ none
unfolding find_reusable run new_session_manager str_eq itoa
nothing_free = refl

node_starts :
    start_server pve (str "node") (str "pve") [] answer ≡ inr (str "http://localhost:1", pos 1)
unfolding start_server str_eq
node_starts = refl

none_stored :
    get (session_id (sec 1) (key_for (str "node") (str "pve") [])) new_session_manager.sessions
    ≡ none
unfolding new_session_manager get
none_stored = refl

none_to_reuse :
    find_reusable new_session_manager.sessions
      (key_for (str "node") (str "pve") [])
      new_session_manager.session_timeout
      (sec 1)
    ≡ none
unfolding find_reusable new_session_manager
none_to_reuse = refl

found_again :
    find_reusable left_manager.sessions
      (key_for (str "node") (str "pve") [])
      left_manager.session_timeout
      (sec 4)
    ≡ some out_of_use
unfolding find_reusable run new_session_manager str_eq itoa
found_again = refl

check_disconnected-create_session_example :
    let r =
      create_session left_manager pve (str "node") (str "pve") [] (str "pve") answer (sec 4) in
    check_disconnected r.0 the_id ≡ (r.0, [])
check_disconnected-create_session_example =
    check_disconnected-create_session left_manager pve (str "node") (str "pve") [] (str "pve")
      answer (sec 4) out_of_use found_again

cleanup_expired_sessions_cases_example :
    let r = cleanup_expired_sessions left_manager (sec 90000) in
    ((is_expired out_of_use left_manager.session_timeout (sec 90000) ≡ true)
      × (get the_id r.0.sessions ≡ none)
      × Elem (shuts (shut out_of_use)) r.1)
    ⊎ ((is_expired out_of_use left_manager.session_timeout (sec 90000) ≡ false)
        × (get the_id r.0.sessions ≡ some out_of_use))
cleanup_expired_sessions_cases_example =
    cleanup_expired_sessions_cases left_manager (sec 90000) the_id out_of_use (run-AreLive left)
      out_of_use_stored
