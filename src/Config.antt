-- ===== src/Config.antt =====
-- internal/config/profiles.go and the parts of internal/config/config.go about connections: the record
-- of the settings, the choice of a profile and its checks. The settings that this code neither reads
-- nor writes (keys, themes, plugins, paths) are left out. The deprecated fields of the configuration
-- are those of a profile without its groups: both are a Connection.
pub mod Getters
pub mod Groups
pub mod Membership
pub mod Selection
pub mod Validation
pub mod Fitting
pub mod Verdicts
pub mod Whole
pub mod Normalized
pub mod Tests
use pvetui.Base.{
  List, [], ◌∷◌, ◌++◌, Option, none, some, Bool, true, false, not, ◌&&◌, ◌||◌, Str, str, str_eq,
  ◌==◌, if◌then◌else◌, Dict, get, put, ℤ, pos, is_some, keys,
}

pub record SshJumpHost : Type 0 where
  addr : Str
  user : Str
  keyfile : Str
  port : ℤ

pub record Connection : Type 0 where
  pub addr : Str
  pub user : Str
  pub password : Str
  pub token_id : Str
  pub token_secret : Str
  pub realm : Str
  pub api_path : Str
  pub insecure : Bool
  pub ssh_user : Str
  pub vm_ssh_user : Str
  pub ssh_keyfile : Str
  pub vm_ssh_keyfile : Str
  pub ssh_jump_host : SshJumpHost

pub record ProfileConfig : Type 0 where
  pub connection : Connection
  pub groups : List Str

pub record GroupSettingsConfig : Type 0 where
  mode : Str

-- `profiles` is none for a nil map, which reads as an empty one.
pub record Config : Type 0 where
  pub profiles : Option (Dict ProfileConfig)
  pub default_profile : Str
  pub active_profile : Str
  pub group_settings : Dict GroupSettingsConfig
  pub legacy : Connection

abbrev pub entries {ℓ} : {A : Type ℓ} → Option (Dict A) → Dict A
entries none = []
entries (some m) = m

pub data ProfileError : Type 0 where
  no_profiles : ProfileError
  not_found : Str → ProfileError

abbrev no_jump_host : SshJumpHost
no_jump_host = record { addr = []; user = []; keyfile = []; port = pos 0 }

abbrev pub no_connection : Connection
no_connection = record {
  addr = [];
  user = [];
  password = [];
  token_id = [];
  token_secret = [];
  realm = [];
  api_path = [];
  insecure = false;
  ssh_user = [];
  vm_ssh_user = [];
  ssh_keyfile = [];
  vm_ssh_keyfile = [];
  ssh_jump_host = no_jump_host;
}

abbrev applied : Config → Str → Option ProfileConfig → Config × Option ProfileError
applied c profile_name none = (c, some (not_found profile_name))
applied c profile_name (some profile) =
    (record c { legacy = profile.connection; active_profile = profile_name }, none)

abbrev applied_from : Config → Str → Option (Dict ProfileConfig) → Config × Option ProfileError
applied_from c profile_name none = (c, some no_profiles)
applied_from c profile_name (some m) = applied c profile_name (get profile_name m)

unfoldable pub apply_profile : Config → Str → Config × Option ProfileError
unfolding get
apply_profile c profile_name = applied_from c profile_name c.profiles

abbrev pub is_set : Str → Bool
is_set s = not (str_eq s [])

unfoldable pub has_legacy_fields : Connection → Bool
has_legacy_fields l =
    is_set l.addr
    || (is_set l.user
        || (is_set l.password
            || (is_set l.token_id
                || (is_set l.token_secret
                    || (is_set l.realm
                        || (is_set l.api_path
                            || (is_set l.ssh_user
                                || (is_set l.vm_ssh_user
                                    || (is_set l.ssh_keyfile
                                        || (is_set l.vm_ssh_keyfile
                                            || is_set l.ssh_jump_host.addr))))))))))

abbrev pub is_empty {ℓ} : {A : Type ℓ} → List A → Bool
is_empty [] = true
is_empty (x ∷ xs) = false

-- `default_profile` becomes "default" as the new profile's name.
unfoldable pub migrate_legacy_to_profiles : Config → Config × Bool
unfolding has_legacy_fields put
migrate_legacy_to_profiles c =
    if not (has_legacy_fields c.legacy) || not (is_empty (entries c.profiles))
    then (c, false)
    else (
      record c {
        profiles = some (
            put (str "default") (record { connection = c.legacy; groups = [] })
              (entries c.profiles));
        default_profile = str "default";
        legacy = no_connection;
      },
      true,
    )

-- strings.TrimRight(s, "/")
unfoldable pub trim_slashes : Str → Str
trim_slashes [] = []
trim_slashes (c ∷ s) =
    let rest = trim_slashes s in if str_eq rest [] && c == b'/' then [] else c ∷ rest

abbrev pub has_password : Connection → Bool
has_password p = is_set p.password

abbrev pub has_token : Connection → Bool
has_token p = is_set p.token_id && is_set p.token_secret

pub data LoginProblem : Type 0 where
  address_required username_required authentication_required authentication_conflict : LoginProblem

-- Both methods, or neither.
abbrev pub method_problem : Bool → Bool → Option LoginProblem
method_problem false false = some authentication_required
method_problem true true = some authentication_conflict
method_problem true false = none
method_problem false true = none

-- What the checks after the address make of a profile.
abbrev checked : ProfileConfig → Option LoginProblem → ProfileConfig × Option LoginProblem
checked p (some problem) = (p, some problem)
checked p none = (
  record p {
    connection = record p.connection {
      realm = if str_eq p.connection.realm [] then str "pam" else p.connection.realm;
    };
  },
  none,
)

-- ProfileConfig.Validate, which also normalizes the profile; the address stays trimmed where a later
-- check fails.
unfoldable pub validate_profile : ProfileConfig → ProfileConfig × Option LoginProblem
unfolding trim_slashes
validate_profile p =
    if str_eq p.connection.addr []
    then (p, some address_required)
    else (let p' = record p {
      connection = record p.connection { addr = trim_slashes p.connection.addr };
    } in
        checked p' (
          if str_eq p.connection.user []
          then some username_required
          else method_problem (has_password p.connection) (has_token p.connection)))

unfoldable pub get_profile_names : Config → List Str
get_profile_names c = keys (entries c.profiles)

unfoldable pub has_profiles : Config → Bool
has_profiles c = is_some c.profiles

unfoldable pub get_active_profile : Config → Str
get_active_profile c = if is_set c.active_profile then c.active_profile else c.default_profile

abbrev pub or_connection : Option ProfileConfig → Connection → Connection
or_connection none later = later
or_connection (some p) later = p.connection
