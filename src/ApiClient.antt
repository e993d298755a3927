-- ===== src/ApiClient.antt =====
-- NewClient of pkg/api/client.go, which makes an HTTP client of a configuration and authenticates it. The
-- transport and the cache are left out.
pub mod Profiled
pub mod Tests
use pvetui.Base.{
  List, [], ◌∷◌, ◌++◌, Option, none, some, Bool, true, false, not, ◌&&◌, Str, str, str_eq,
  if◌then◌else◌, has_prefix, contains, ◌⊎◌, inl, inr,
}
use pvetui.Config.{Config, trim_slashes}
use pvetui.Config.Getters.{
  get_addr, get_user, get_realm, get_password, get_api_token, is_using_token_auth,
}
use pvetui.HttpClient.{HttpClient, AuthManager, AuthError, Environment, Traffic}
use pvetui.HttpClient.Requests.{ensure_authenticated}

-- strings.TrimSuffix, for a suffix that is not empty.
unfoldable pub trim_suffix : Str → Str → Str
trim_suffix [] suffix = []
trim_suffix (c ∷ s) suffix =
    let rest = trim_suffix s suffix in if str_eq (c ∷ s) suffix then [] else c ∷ rest

-- The address with a scheme, and without the path of the API.
unfoldable pub server_base_url : Str → Str
unfolding trim_slashes has_prefix trim_suffix
server_base_url addr =
    let base = trim_slashes addr in
    trim_suffix
      (if not (has_prefix base (str "https://")) && not (has_prefix base (str "http://"))
        then str "https://" ++ base
        else base)
      (str "/api2/json")

unfoldable pub new_auth_manager_with_password : Str → Str → AuthManager
new_auth_manager_with_password username password = record {
  username = username;
  password = password;
  token = [];
  auth_token = none;
}

unfoldable pub new_auth_manager_with_token : Str → AuthManager
new_auth_manager_with_token token = record {
  username = [];
  password = [];
  token = token;
  auth_token = none;
}

pub data NewClientError : Type 0 where
  address_empty : NewClientError
  missing_port : Str → NewClientError
  authentication_failed : AuthError → NewClientError

unfoldable pub auth_manager_for : Config → AuthManager
unfolding is_using_token_auth new_auth_manager_with_token new_auth_manager_with_password
    get_api_token get_user get_realm get_password
auth_manager_for c =
    if is_using_token_auth c
    then new_auth_manager_with_token (get_api_token c)
    else new_auth_manager_with_password (get_user c ++ (b'@' ∷ get_realm c)) (get_password c)

module _ (env : Environment) where
  abbrev pub ready : Traffic × Option AuthError → NewClientError ⊎ Traffic
  ready (t, some e) = inl (authentication_failed e)
  ready (t, none) = inr t

  -- The client after its HTTP client has the manager, and the test of the authentication.
  abbrev pub connected_with : Str → AuthManager → NewClientError ⊎ Traffic
  connected_with server am = ready (
      ensure_authenticated env
        (record {
          client = record {
            base_url = server ++ str "/api2/json";
            api_token = [];
            auth_manager = some am;
          };
          sent = [];
        })
        am)

  unfoldable pub new_client : Config → NewClientError ⊎ Traffic
  unfolding get_addr server_base_url contains auth_manager_for ensure_authenticated
  new_client c =
      let server = server_base_url (get_addr c) in
      if str_eq (get_addr c) []
      then inl address_empty
      else if not (contains server (str ":"))
      then inl (missing_port server)
      else connected_with server (auth_manager_for c)
