-- ===== src/VncSessions.antt =====
-- internal/vnc/session_manager.go: the sessions that the interface has with the consoles of guests and
-- nodes. Times are nanoseconds, and the clock stands still during a call. A session is stored by value:
-- what is not modelled is a session that the map has let go of. The port range and the ports in use,
-- which nothing reads, are left out.
pub mod Opening
pub mod Closing
pub mod Finding
pub mod Creating
pub mod Cleaning
pub mod Tests
pub mod Running
pub mod Live
pub mod Sound
use pvetui.Base.{
  ℕ, ◌+◌, ◌-◌, ◌*◌, ◌/◌, suc, zero, List, [], ◌∷◌, ◌++◌, Option, none, some, Bool, true, false, not,
  ◌&&◌, ◌||◌, Str, str, str_eq, ltb, ◌==◌, if◌then◌else◌, Dict, get, put, delete, length, keys, map,
  ℤ, pos, itoa, ◌⊎◌, inl, inr,
}

pub data SessionState : Type 0 where
  active connected disconnected closed : SessionState

-- `signalled` says whether the channel of one element, disconnectChan, is full, and `has_channel`
-- whether it is there.
pub record VncSession : Type 0 where
  id : Str
  target_type : Str
  node_name : Str
  vmid : Str
  target_name : Str
  port : ℤ
  url : Str
  created_at : ℕ
  last_used : ℕ
  state : SessionState
  active_connections : ℕ
  signalled : Bool
  has_channel : Bool

-- `has_callback` says whether the interface has asked to be told the number of sessions.
pub record SessionManager : Type 0 where
  sessions : Dict VncSession
  has_callback : Bool
  session_timeout : ℕ

-- What a call does beyond the state: it tells the number of sessions, starts the monitor of a session,
-- or shuts one down, which stops its server.
pub data Effect : Type 0 where
  tells : ℕ → Effect
  monitors : Str → Effect
  shuts : VncSession → Effect

unfoldable pub new_session_manager : SessionManager
new_session_manager = record {
  sessions = [];
  has_callback = false;
  session_timeout = 24 * 3600 * 1000000000;
}

unfoldable pub set_session_count_callback : SessionManager → Bool → SessionManager
set_session_count_callback sm callback = record sm { has_callback = callback }

abbrev pub session_count : SessionManager → ℕ
session_count sm = length sm.sessions

unfoldable pub notify_session_count_change : SessionManager → List Effect
notify_session_count_change sm = if sm.has_callback then tells (session_count sm) ∷ [] else []

unfoldable pub update_last_used : VncSession → ℕ → VncSession
update_last_used s now = record s { last_used = now }

unfoldable pub on_client_connected : VncSession → ℕ → VncSession
on_client_connected s now = record s {
  active_connections = suc s.active_connections;
  state = connected;
  last_used = now;
}

-- A channel that is nil or full takes no signal.
unfoldable pub on_client_disconnected : VncSession → VncSession
on_client_disconnected s =
    let s' = record s { active_connections = s.active_connections - 1 } in
    if s'.active_connections == 0
    then record s' { state = disconnected; signalled = s.signalled || s.has_channel }
    else s'

abbrev pub is_state_reusable : SessionState → Bool
is_state_reusable active = true
is_state_reusable connected = false
is_state_reusable disconnected = true
is_state_reusable closed = false

abbrev pub is_disconnected : SessionState → Bool
is_disconnected active = false
is_disconnected connected = false
is_disconnected disconnected = true
is_disconnected closed = false

unfoldable pub is_reusable : VncSession → Bool
is_reusable s = is_state_reusable s.state

unfoldable pub is_expired : VncSession → ℕ → ℕ → Bool
is_expired s timeout now = ltb timeout (now - s.last_used)

abbrev pub key_for : Str → Str → Str → Str
key_for target_type node_name vmid = target_type ++ (b':' ∷ (node_name ++ (b':' ∷ vmid)))

unfoldable pub get_target_key : VncSession → Str
get_target_key s = key_for s.target_type s.node_name s.vmid

-- Shutdown of a session; the error of its server's Stop is the caller's.
unfoldable pub shut : VncSession → VncSession
shut s = record s { state = closed; signalled = false; has_channel = false }

-- `id` is the field ID and `kind` the field Type.
pub record Vm : Type 0 where
  id : ℤ
  name : Str
  node : Str
  kind : Str

pub record Node : Type 0 where
  name : Str
  vms : List Vm

unfoldable pub find_vm : Str → List Vm → Option Vm
unfolding itoa
find_vm vmid [] = none
find_vm vmid (vm ∷ vms) = if str_eq (itoa vm.id) vmid then some vm else find_vm vmid vms

unfoldable pub find_target_vm : Str → Str → List Node → Option Vm
unfolding find_vm
find_target_vm node_name vmid [] = none
find_target_vm node_name vmid (node ∷ nodes) =
    if str_eq node.name node_name
    then find_vm vmid node.vms
    else find_target_vm node_name vmid nodes

unfoldable pub find_reusable : Dict VncSession → Str → ℕ → ℕ → Option VncSession
unfolding get_target_key is_reusable is_expired
find_reusable [] target_key timeout now = none
find_reusable ((id, s) ∷ m) target_key timeout now =
    if str_eq (get_target_key s) target_key && (is_reusable s && not (is_expired s timeout now))
    then some s
    else find_reusable m target_key timeout now

-- What starting the server of a console answers: the URL and the port, or an error.
pub data Started : Type 0 where
  started_at : Str → ℤ → Started
  start_failed : Str → Started

pub data CreateError : Type 0 where
  vm_not_found : Str → Str → CreateError
  server_failed : Str → CreateError
  unsupported_type : Str → CreateError

pub data Created : Type 0 where
  opened : VncSession → Created
  refused : CreateError → Created
