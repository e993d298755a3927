-- ===== src/VncSessions/Opening.antt =====
-- CreateSession and its kinds, and the reads of the sessions.
use pvetui.Base.{
  ℕ, ◌/◌, List, [], ◌∷◌, ◌++◌, Option, none, some, true, false, ◌&&◌, ◌||◌, Str, str, str_eq,
  if◌then◌else◌, Dict, put, map, ℤ, pos, itoa, ◌⊎◌, inl, inr,
}
use pvetui.VncSessions.{
  VncSession, SessionManager, Effect, notify_session_count_change, is_disconnected, key_for, Vm,
  Node, find_target_vm, find_reusable, Started, CreateError, Created, active, monitors, started_at,
  start_failed, vm_not_found, server_failed, unsupported_type, opened, refused,
}

-- fmt.Sprintf("vnc_%d_%s", time.Now().Unix(), targetKey)
unfoldable pub session_id : ℕ → Str → Str
unfolding itoa
session_id now target_key = str "vnc_" ++ (itoa (pos (now / 1000000000)) ++ (b'_' ∷ target_key))

abbrev pub new_session : Str → Str → Str → Str → ℕ → VncSession
new_session session_type node_name vmid target_name now = record {
  id = session_id now (key_for session_type node_name vmid);
  target_type = session_type;
  node_name = node_name;
  vmid = vmid;
  target_name = target_name;
  port = pos 0;
  url = [];
  created_at = now;
  last_used = now;
  state = active;
  active_connections = 0;
  signalled = false;
  has_channel = true;
}

-- The cluster that the client knows is none for nil.
abbrev pub nodes_of : Option (List Node) → List Node
nodes_of none = []
nodes_of (some nodes) = nodes

abbrev pub after_start : Started → CreateError ⊎ (Str × ℤ)
after_start (start_failed e) = inl (server_failed e)
after_start (started_at url port) = inr (url, port)

abbrev pub with_vm : Str → Str → Option Vm → Started → CreateError ⊎ (Str × ℤ)
with_vm node_name vmid none answer = inl (vm_not_found vmid node_name)
with_vm node_name vmid (some vm) answer = after_start answer

-- The switch on the session type; `answer` is what the server's start answers.
unfoldable pub start_server :
    Option (List Node) → Str → Str → Str → Started → CreateError ⊎ (Str × ℤ)
unfolding find_target_vm
start_server cluster session_type node_name vmid answer =
    if str_eq session_type (str "vm") || str_eq session_type (str "lxc")
    then with_vm node_name vmid (find_target_vm node_name vmid (nodes_of cluster)) answer
    else if str_eq session_type (str "node")
    then after_start answer
    else inl (unsupported_type session_type)

-- A session that was disconnected becomes active again; it is used now in any case.
abbrev pub reactivated : VncSession → ℕ → VncSession
reactivated s now = record s {
  last_used = now;
  state = if is_disconnected s.state then active else s.state;
}

abbrev pub store_session :
    SessionManager → VncSession → CreateError ⊎ (Str × ℤ) → SessionManager × List Effect × Created
store_session sm s (inl e) = (sm, [], refused e)
store_session sm s (inr (url, port)) =
    let s' = record s { port = port; url = url } in
    let sm' = record sm { sessions = put s.id s' sm.sessions } in
    (sm', notify_session_count_change sm' ++ monitors s.id ∷ [], opened s')

-- The session that is found has its own ID as its key.
abbrev pub reuse_or :
    SessionManager
    → Option VncSession
    → ℕ
    → SessionManager × List Effect × Created
    → SessionManager × List Effect × Created
reuse_or sm none now created = created
reuse_or sm (some s) now created =
    let s' = reactivated s now in (record sm { sessions = put s.id s' sm.sessions }, [], opened s')

unfoldable pub create_session :
    SessionManager
    → Option (List Node)
    → Str
    → Str
    → Str
    → Str
    → Started
    → ℕ
    → SessionManager × List Effect × Created
unfolding find_reusable put start_server session_id notify_session_count_change
create_session sm cluster session_type node_name vmid target_name answer now =
    reuse_or sm
      (find_reusable sm.sessions (key_for session_type node_name vmid) sm.session_timeout now) now
      (store_session sm (new_session session_type node_name vmid target_name now)
        (start_server cluster session_type node_name vmid answer))

unfoldable pub create_vm_session :
    SessionManager → Option (List Node) → Vm → Started → ℕ → SessionManager × List Effect × Created
unfolding create_session itoa
create_vm_session sm cluster vm answer now =
    if str_eq vm.kind (str "qemu")
    then create_session sm cluster (str "vm") vm.node (itoa vm.id) vm.name answer now
    else if str_eq vm.kind (str "lxc")
    then create_session sm cluster (str "lxc") vm.node (itoa vm.id) vm.name answer now
    else (sm, [], refused (unsupported_type vm.kind))

unfoldable pub create_node_session :
    SessionManager → Option (List Node) → Str → Started → ℕ → SessionManager × List Effect × Created
unfolding create_session
create_node_session sm cluster node_name answer now =
    create_session sm cluster (str "node") node_name [] node_name answer now

unfoldable pub list_sessions : SessionManager → List VncSession
list_sessions sm = map (λ e. e.1) sm.sessions

unfoldable pub session_by_target : Dict VncSession → Str → Str → Option VncSession
session_by_target [] session_type target = none
session_by_target ((id, s) ∷ m) session_type target =
    if str_eq s.target_type session_type && str_eq s.target_name target
    then some s
    else session_by_target m session_type target

unfoldable pub get_session_by_target : SessionManager → Str → Str → Option VncSession
unfolding session_by_target
get_session_by_target sm session_type target = session_by_target sm.sessions session_type target
