-- ===== src/Config/Tests.antt =====
-- Runs of the configuration at concrete inputs, and the theorems applied there.
use pvetui.Base.{
  [], ◌∷◌, none, some, true, false, str, str_eq, ◌≡◌, ◌≢◌, ◌↔◌, refl, inl, inr, get, Elem, Str,
  str_lt,
}
use pvetui.Config.{
  Config, ProfileConfig, Connection, no_connection, get_active_profile, migrate_legacy_to_profiles,
  trim_slashes,
}
use pvetui.Config.Getters.{effective, get_api_token, resolve_profile}
use pvetui.Config.Groups.{validate_groups, get_groups, get_profile_names_in_group, is_group, listed}
use pvetui.Config.Validation.{validate_connections, validate, validate_config}
use pvetui.Config.Whole.{BindingsFit, validate_config_iff}
use pvetui.Keys.Bindings.{default_key_bindings}
use pvetui.Keys.Tests.{terminal, bits_injective}
use pvetui.Config.Membership.{get_groups_iff}
use pvetui.Config.Selection.{migrate_legacy_to_profiles-effective}
use pvetui.Config.Verdicts.{ConnectionsFit, validate_connections-CanLogin}
use pvetui.Config.Fitting.{CanLogin}
use pvetui.Config.Normalized.{Slashes}

abbrev by_password : Str → Connection
by_password addr = record no_connection { addr = addr; user = str "root"; password = str "secret" }

abbrev home : ProfileConfig
home = record { connection = by_password (str "https://pve:8006"); groups = str "all" ∷ [] }

abbrev work : ProfileConfig
work = record {
  connection = record no_connection {
    addr = str "https://work";
    user = str "ci";
    realm = str "pve";
    token_id = str "id";
    token_secret = str "s3";
  };
  groups = str "all" ∷ str "lab" ∷ [];
}

abbrev two : Config
two = record {
  profiles = some ((str "work", work) ∷ (str "home", home) ∷ []);
  default_profile = str "home";
  active_profile = [];
  group_settings = [];
  legacy = no_connection;
}

abbrev old : Config
old = record two { profiles = none; default_profile = []; legacy = work.connection }

lab_members : get_profile_names_in_group two (str "all") ≡ str "home" ∷ str "work" ∷ []
unfolding get_profile_names_in_group str_eq str_lt
lab_members = refl

old_token : get_api_token old ≡ str "PVEAPIToken=ci@pve!id=s3"
unfolding get_api_token str_eq
old_token = refl

two_fit : validate none two ≡ none
unfolding validate validate_groups str_eq is_group
two_fit = refl

trimmed : trim_slashes (str "https://pve//") ≡ str "https://pve"
unfolding trim_slashes str_eq
trimmed = refl

environment_wins : resolve_profile [] (str "work") two ≡ str "work"
unfolding resolve_profile str_eq
environment_wins = refl

work_name : str "work" ≢ []
work_name e = cc

all_name : str "all" ≢ []
all_name e = cc

migrate_legacy_to_profiles-effective_example :
    (effective (migrate_legacy_to_profiles old).0 ≡ effective old)
    × ((migrate_legacy_to_profiles (migrate_legacy_to_profiles old).0).1 ≡ false)
migrate_legacy_to_profiles-effective_example = migrate_legacy_to_profiles-effective old

get_groups_iff_example :
    (Elem (str "home") (listed (get (str "all") (get_groups two)))
      ↔ Elem (str "home") (get_profile_names_in_group two (str "all")))
    × ((is_group two (str "all") ≡ true)
        ↔ ((x : Str) × Elem x (get_profile_names_in_group two (str "all"))))
get_groups_iff_example = get_groups_iff two (str "all") (str "home") all_name

two_accepted : validate_connections two ≡ none
unfolding validate_connections validate_groups str_eq is_group
two_accepted = refl

home_not_group : is_group two (get_active_profile two) ≡ false
unfolding is_group get_active_profile str_eq
home_not_group = refl

home_selected : get_active_profile two ≢ []
unfolding get_active_profile str_eq
home_selected e = cc

validate_connections-CanLogin_example : CanLogin (effective two)
validate_connections-CanLogin_example =
    validate_connections-CanLogin two two_accepted home_not_group (inr home_selected)

abbrev slashed : ProfileConfig
slashed = record { connection = by_password (str "//"); groups = [] }

slashed-CanLogin : CanLogin slashed.connection
slashed-CanLogin = (λ e. cc, λ e. cc, inl (λ e. cc, inl refl))

slashed-Slashes : Slashes slashed.connection.addr
slashed-Slashes = (refl, (refl, tt))

validate_config_iff_example :
    (validate_config terminal default_key_bindings two ≡ none)
    ↔ (ConnectionsFit two × BindingsFit terminal default_key_bindings)
validate_config_iff_example = validate_config_iff terminal default_key_bindings two bits_injective
