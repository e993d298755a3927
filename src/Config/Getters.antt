-- ===== src/Config/Getters.antt =====
-- The getters of internal/config/config.go, and the choice of the profile at the start.
use pvetui.Base.{
  [], ◌∷◌, ◌++◌, Option, none, some, Bool, not, ◌&&◌, Str, str, str_eq, if◌then◌else◌, Dict, get,
}
use pvetui.Config.{
  Connection, ProfileConfig, Config, entries, ProfileError, is_set, is_empty, has_token,
  or_connection, no_profiles, not_found,
}

-- Where the getters GetAddr, GetUser, GetPassword, GetRealm, GetTokenID, GetTokenSecret and GetInsecure
-- all look: the active profile, then the default one, then the deprecated fields.
unfoldable pub effective : Config → Connection
unfolding get
effective c =
    let m = entries c.profiles in
    if is_empty m
    then c.legacy
    else (let or_default =
          if is_set c.default_profile
          then or_connection (get c.default_profile m) c.legacy
          else c.legacy in
        if is_set c.active_profile
        then or_connection (get c.active_profile m) or_default
        else or_default)

unfoldable pub get_addr : Config → Str
unfolding effective
get_addr c = (effective c).addr

unfoldable pub get_user : Config → Str
unfolding effective
get_user c = (effective c).user

unfoldable pub get_password : Config → Str
unfolding effective
get_password c = (effective c).password

unfoldable pub get_realm : Config → Str
unfolding effective
get_realm c = (effective c).realm

unfoldable pub get_token_id : Config → Str
unfolding effective
get_token_id c = (effective c).token_id

unfoldable pub get_token_secret : Config → Str
unfolding effective
get_token_secret c = (effective c).token_secret

unfoldable pub get_insecure : Config → Bool
unfolding effective
get_insecure c = (effective c).insecure

unfoldable pub is_using_token_auth : Config → Bool
is_using_token_auth c = has_token c.legacy

-- fmt.Sprintf("PVEAPIToken=%s@%s!%s=%s", user, realm, token ID, token secret), of the deprecated fields.
unfoldable pub get_api_token : Config → Str
get_api_token c =
    let l = c.legacy in
    if has_token l
    then str "PVEAPIToken="
      ++ (l.user ++ b'@' ∷ (l.realm ++ b'!' ∷ (l.token_id ++ b'=' ∷ l.token_secret)))
    else []

-- internal/profile/profile.go; `env_profile` is what the environment variable PVETUI_PROFILE holds.
unfoldable pub resolve_profile : Str → Str → Config → Str
resolve_profile flag_profile env_profile c =
    if is_set flag_profile
    then flag_profile
    else if is_set env_profile
    then env_profile
    else if is_set c.default_profile && not (is_empty (entries c.profiles))
    then c.default_profile
    else []

abbrev found_profile : Str → Option ProfileConfig → Option ProfileError
found_profile name none = some (not_found name)
found_profile name (some p) = none

abbrev found_among : Str → Option (Dict ProfileConfig) → Option ProfileError
found_among name none = some no_profiles
found_among name (some m) = found_profile name (get name m)

unfoldable pub validate_selected : Str → Config → Option ProfileError
unfolding get
validate_selected profile_name c =
    if str_eq profile_name [] then none else found_among profile_name c.profiles
