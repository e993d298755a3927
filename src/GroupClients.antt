-- ===== src/GroupClients.antt =====
-- pkg/api/group-client-manager.go: the clients of the profiles of a group. `connect` is what NewClient
-- answers for a profile's configuration: none is a client, some e its error. The goroutines of
-- Initialize report on channels: `arrivals` has the profiles in the order in which their clients
-- arrive, and `failed` in the order in which the errors do.
pub mod Initialized
pub mod Summary
pub mod Guests
pub mod Tests
use pvetui.Base.{
  ℕ, suc, ◌+◌, List, [], ◌∷◌, ◌++◌, Option, none, some, Bool, true, false, Str, str, if◌then◌else◌,
  Dict, get, put, length, ltb, filter,
}

pub data ProfileConnectionStatus : Type 0 where
  unknown : ProfileConnectionStatus
  connected : ProfileConnectionStatus
  disconnected : ProfileConnectionStatus
  failing : ProfileConnectionStatus

-- `has_client` says whether the pointer Client is set.
pub record ProfileClient : Type 0 where
  has_client : Bool
  profile_name : Str
  status : ProfileConnectionStatus
  last_err : Option Str

pub record GroupClientManager : Type 0 where
  group_name : Str
  clients : Dict ProfileClient

pub record ProfileEntry (Config : Type 0) : Type 0 where
  name : Str
  config : Config

unfoldable pub status_string : ProfileConnectionStatus → Str
status_string connected = str "connected"
status_string disconnected = str "disconnected"
status_string failing = str "error"
status_string unknown = str "unknown"

unfoldable pub new_group_client_manager : Str → GroupClientManager
new_group_client_manager group_name = record { group_name = group_name; clients = [] }

unfoldable pub set_status : ProfileClient → ProfileConnectionStatus → Option Str → ProfileClient
set_status pc status err = record pc { status = status; last_err = err }

abbrev pub is_connected : ProfileClient → Bool
is_connected pc = elim pc.status [ ProfileConnectionStatus.connected ↦ true | _ ↦ false ]

-- What NewClient's answer makes of the profile's client.
abbrev pub answered : ProfileClient → Option Str → ProfileClient
answered pc none = set_status (record pc { has_client = true }) connected none
answered pc (some e) = set_status pc failing (some e)

pub data InitializeError : Type 0 where
  no_profiles : InitializeError
  all_failed : List Str → InitializeError

module _ {Config : Type 0} (connect : Config → Option Str) where
  -- The goroutine of one profile.
  unfoldable pub profile_client : ProfileEntry Config → ProfileClient
  unfolding set_status
  profile_client pe =
      answered
        (record { has_client = false; profile_name = pe.name; status = unknown; last_err = none })
        (connect pe.config)

  -- m.clients[pc.ProfileName] = pc for each client that arrives
  unfoldable pub collect : List (ProfileEntry Config) → Dict ProfileClient → Dict ProfileClient
  unfolding put profile_client
  collect [] m = m
  collect (pe ∷ rest) m = collect rest (put pe.name (profile_client pe) m)

  -- fmt.Errorf("profile %s: %w", pe.Name, err) for each profile that fails
  unfoldable pub failures : List (ProfileEntry Config) → List Str
  failures [] = []
  failures (pe ∷ rest) = elim (connect pe.config) [
    | none ↦ failures rest
    | some e ↦ (str "profile " ++ pe.name ++ str ": " ++ e) ∷ failures rest
  ]

abbrev pub values {ℓ} : {A : Type ℓ} → Dict A → List A
values [] = []
values ((k, v) ∷ m) = v ∷ values m

unfoldable pub get_connected_clients : GroupClientManager → List ProfileClient
get_connected_clients m = filter is_connected (values m.clients)

unfoldable pub get_all_clients : GroupClientManager → List ProfileClient
get_all_clients m = values m.clients

unfoldable pub get_client : GroupClientManager → Str → Option ProfileClient
unfolding get
get_client m profile_name = get profile_name m.clients

-- Initialize. The number of connected clients is counted over the map, as GetConnectedClients lists
-- them.
unfoldable pub initialize :
    {Config : Type 0}
    → (Config → Option Str)
    → GroupClientManager
    → List (ProfileEntry Config)
    → List (ProfileEntry Config)
    → List (ProfileEntry Config)
    → GroupClientManager × Option InitializeError
unfolding collect failures get_connected_clients
initialize connect m [] arrivals failed = (record m { clients = [] }, some no_profiles)
initialize connect m (pe ∷ profiles) arrivals failed =
    let m' = record m { clients = collect connect arrivals [] } in
    (
      m',
      if ltb 0 (length (get_connected_clients m'))
          then none
          else some (all_failed (failures connect failed)),
    )

-- The manager after Close, and the closed clients, which others may still hold.
unfoldable pub disconnect_all : List ProfileClient → List ProfileClient
unfolding set_status
disconnect_all [] = []
disconnect_all (pc ∷ pcs) = set_status pc disconnected none ∷ disconnect_all pcs

unfoldable pub close : GroupClientManager → GroupClientManager × List ProfileClient
unfolding disconnect_all
close m = (record m { clients = [] }, disconnect_all (values m.clients))

pub record ConnectionSummary : Type 0 where
  group_name : Str
  total_profiles : ℕ
  connected_count : ℕ
  error_count : ℕ
  profile_status : Dict Str

abbrev pub failure_text : ProfileClient → Option Str → Str
failure_text pc none = status_string pc.status
failure_text pc (some e) = str "error: " ++ e

unfoldable pub status_text : ProfileClient → Str
unfolding status_string
status_text pc = if is_connected pc then str "connected" else failure_text pc pc.last_err

-- The body of the loop of GetConnectionSummary.
unfoldable pub summarize_client : ConnectionSummary → Str → ProfileClient → ConnectionSummary
unfolding status_text put
summarize_client s name pc =
    let told = put name (status_text pc) s.profile_status in
    if is_connected pc
    then record s { connected_count = s.connected_count + 1; profile_status = told }
    else record s { error_count = s.error_count + 1; profile_status = told }

unfoldable pub summarize : Dict ProfileClient → ConnectionSummary → ConnectionSummary
unfolding summarize_client
summarize [] s = s
summarize ((name, pc) ∷ m) s = summarize m (summarize_client s name pc)

unfoldable pub get_connection_summary : GroupClientManager → ConnectionSummary
unfolding summarize
get_connection_summary m = summarize m.clients (record {
  group_name = m.group_name;
  total_profiles = length m.clients;
  connected_count = 0;
  error_count = 0;
  profile_status = [];
})
