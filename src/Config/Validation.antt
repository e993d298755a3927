-- ===== src/Config/Validation.antt =====
-- Validate of internal/config/config.go.
use pvetui.Base.{List, [], ◌∷◌, Option, none, some, Str, str_eq, if◌then◌else◌, Dict, get}
use pvetui.Config.{
  Config, ProfileConfig, Connection, LoginProblem, address_required, username_required,
  method_problem, has_password, has_token, entries, is_empty, get_active_profile,
}
use pvetui.Keys.{Tcell}
use pvetui.Keys.Bindings.{BindingError, KeyBindings, validate_key_bindings}
use pvetui.Config.Groups.{GroupError, validate_groups, is_group, get_profile_names_in_group}

-- Where a problem stands: in the deprecated fields, in the profile of a name, or in a member of the
-- group of a name.
pub data Place : Type 0 where
  in_legacy : Place
  in_profile : Str → Place
  in_member : Str → Str → Place

pub data ConfigError : Type 0 where
  group_error : GroupError → ConfigError
  no_members : Str → ConfigError
  profile_missing : Place → ConfigError
  login_problem : Place → LoginProblem → ConfigError
  key_bindings_error : BindingError → ConfigError

-- The checks of an address, a user and one authentication method, which Validate has three times.
unfoldable pub login_check : Connection → Option LoginProblem
login_check c =
    if str_eq c.addr []
    then some address_required
    else if str_eq c.user []
    then some username_required
    else method_problem (has_password c) (has_token c)

abbrev pub placed : Place → Option LoginProblem → Option ConfigError
placed place none = none
placed place (some problem) = some (login_problem place problem)

abbrev pub check_found : Place → Option ProfileConfig → Option ConfigError
check_found place none = some (profile_missing place)
check_found place (some p) = placed place (login_check p.connection)

abbrev pub or_later : Option ConfigError → Option ConfigError → Option ConfigError
or_later (some e) later = some e
or_later none later = later

unfoldable pub check_members : Str → List Str → Dict ProfileConfig → Option ConfigError
unfolding get login_check
check_members group_name [] profiles = none
check_members group_name (name ∷ names) profiles =
    or_later (check_found (in_member group_name name) (get name profiles))
      (check_members group_name names profiles)

unfoldable pub check_group : Str → List Str → Dict ProfileConfig → Option ConfigError
unfolding check_members
check_group group_name [] profiles = some (no_members group_name)
check_group group_name (name ∷ names) profiles = check_members group_name (name ∷ names) profiles

unfoldable pub check_selection : Config → Str → Option ConfigError
unfolding check_group get login_check
check_selection c selection =
    let profiles = entries c.profiles in
    if str_eq selection []
    then none
    else if is_group c selection
    then check_group selection (get_profile_names_in_group c selection) profiles
    else check_found (in_profile selection) (get selection profiles)

abbrev pub from_groups : Option GroupError → Option ConfigError → Option ConfigError
from_groups (some e) later = some (group_error e)
from_groups none later = later

-- The checks up to those of the key bindings. The selection is the active profile or else the default
-- one, as in GetActiveProfile.
unfoldable pub validate_connections : Config → Option ConfigError
unfolding check_selection login_check get_active_profile
validate_connections c =
    if is_empty (entries c.profiles)
    then placed in_legacy (login_check c.legacy)
    else from_groups (validate_groups c) (check_selection c (get_active_profile c))

abbrev pub bindings_error : Option BindingError → Option ConfigError
bindings_error none = none
bindings_error (some e) = some (key_bindings_error e)

-- `bindings` is what ValidateKeyBindings answers for the key bindings of the configuration.
unfoldable pub validate : Option BindingError → Config → Option ConfigError
unfolding validate_connections
validate bindings c = or_later (validate_connections c) (bindings_error bindings)

-- Validate with the key bindings of the configuration.
unfoldable pub validate_config : Tcell → KeyBindings → Config → Option ConfigError
unfolding validate validate_key_bindings
validate_config t key_bindings c = validate (validate_key_bindings t key_bindings) c
