-- ===== src/ApiClient/Tests.antt =====
-- Clients of concrete configurations, and the theorems applied there.
use pvetui.Base.{
  [], ◌∷◌, ◌++◌, none, some, str, str_eq, has_prefix, ◌⊎◌, inl, inr, ◌≡◌, ◌≢◌, refl, sym, ◌∙◌, get,
}
use pvetui.Config.{Config, ProfileConfig, no_connection, apply_profile, entries}
use pvetui.Config.Getters.{get_addr, effective}
use pvetui.Config.Fitting.{CanLogin}
use pvetui.HttpClient.{Environment, no_response}
use pvetui.ApiClient.{
  server_base_url, new_client, auth_manager_for, connected_with, new_auth_manager_with_password,
}
use pvetui.ApiClient.Profiled.{with_token, new_client_portless, new_client-apply_profile}

abbrev silent : Environment
silent = record {
  send = λ n req. no_response (str "unreachable");
  clock = λ n. n;
  cancelled = λ n. none;
  request_error = λ method url. none;
  encode_form = λ user password. user ++ password;
  decode_login = λ body. inl (str "none");
  unmarshal = λ body. none;
}

abbrev lab : ProfileConfig
lab = record {
  connection = record no_connection {
    addr = str "pve.lab/api2/json/";
    user = str "ci";
    realm = str "pve";
    token_id = str "id";
    token_secret = str "s3";
  };
  groups = [];
}

abbrev one : Config
one = record {
  profiles = some ((str "lab", lab) ∷ []);
  default_profile = [];
  active_profile = [];
  group_settings = [];
  legacy = lab.connection;
}

path_trimmed : server_base_url (str "pve.lab/api2/json/") ≡ str "https://pve.lab"
unfolding server_base_url str_eq has_prefix
path_trimmed = refl

addr_given : get_addr one ≡ str "pve.lab/api2/json/"
unfolding get_addr effective str_eq
addr_given = refl

addr_set : get_addr one ≢ []
addr_set e = let q = sym addr_given ∙ e in cc

-- The address has no port.
new_client_portless_example :
    new_client silent one
    ≡ connected_with silent (server_base_url (get_addr one)) (auth_manager_for one)
new_client_portless_example = new_client_portless silent one addr_set

lab_found : get (str "lab") (entries one.profiles) ≡ some lab
unfolding get str_eq
lab_found = refl

lab_name : str "lab" ≢ []
lab_name e = cc

lab-CanLogin : CanLogin lab.connection
lab-CanLogin = (λ e. cc, λ e. cc, inr (refl, λ e. cc, λ e. cc))

new_client-apply_profile_example :
    let l = lab.connection in
    let made = new_client silent (apply_profile one (str "lab")).0 in
    ((l.token_id ≢ []) × (l.token_secret ≢ []) × (made ≡ inr (with_token silent l)))
    ⊎ ((l.password ≢ [])
        × (made
            ≡ connected_with silent
                (server_base_url l.addr)
                (new_auth_manager_with_password (l.user ++ (b'@' ∷ l.realm)) l.password)))
new_client-apply_profile_example =
    new_client-apply_profile silent one (str "lab") lab lab_name lab_found lab-CanLogin
