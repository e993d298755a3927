-- ===== src/Config/Groups.antt =====
-- The groups of internal/config/profiles.go. The order in which `range` meets the entries of a map is
-- that of its list.
use pvetui.Base.{
  List, [], ◌∷◌, ◌++◌, Option, none, some, Bool, true, false, not, ◌||◌, Str, str, str_eq,
  if◌then◌else◌, Dict, get, put, delete, is_some, sort_strings,
}
use pvetui.Config.{Config, ProfileConfig, GroupSettingsConfig, entries, is_empty}

abbrev pub listed : Option (List Str) → List Str
listed none = []
listed (some names) = names

-- groups[g] = append(groups[g], name) for each group of the profile that is not empty
unfoldable pub add_member : Str → List Str → Dict (List Str) → Dict (List Str)
unfolding get put
add_member name [] groups = groups
add_member name (g ∷ gs) groups =
    add_member name gs
      (if str_eq g [] then groups else put g (listed (get g groups) ++ name ∷ []) groups)

unfoldable pub collect_groups : Dict ProfileConfig → Dict (List Str) → Dict (List Str)
unfolding add_member
collect_groups [] groups = groups
collect_groups ((name, profile) ∷ m) groups =
    collect_groups m (add_member name profile.groups groups)

unfoldable pub sort_members : Dict (List Str) → Dict (List Str)
unfolding sort_strings
sort_members [] = []
sort_members ((g, names) ∷ m) = (g, sort_strings names) ∷ sort_members m

unfoldable pub get_groups : Config → Dict (List Str)
unfolding collect_groups sort_members
get_groups c = sort_members (collect_groups (entries c.profiles) [])

-- The loop over a profile's groups that breaks at the first match.
unfoldable pub in_group : Str → List Str → Bool
in_group group_name [] = false
in_group group_name (g ∷ gs) = if str_eq g group_name then true else in_group group_name gs

unfoldable pub members_in : Str → Dict ProfileConfig → List Str
unfolding in_group
members_in group_name [] = []
members_in group_name ((name, profile) ∷ m) =
    let rest = members_in group_name m in
    if in_group group_name profile.groups then name ∷ rest else rest

unfoldable pub profiles_in : Str → Dict ProfileConfig → List ProfileConfig
unfolding in_group
profiles_in group_name [] = []
profiles_in group_name ((name, profile) ∷ m) =
    let rest = profiles_in group_name m in
    if in_group group_name profile.groups then profile ∷ rest else rest

unfoldable pub get_profiles_in_group : Config → Str → List ProfileConfig
unfolding profiles_in
get_profiles_in_group c group_name = profiles_in group_name (entries c.profiles)

unfoldable pub get_profile_names_in_group : Config → Str → List Str
unfolding members_in sort_strings
get_profile_names_in_group c group_name = sort_strings (members_in group_name (entries c.profiles))

unfoldable pub is_group : Config → Str → Bool
unfolding get_groups get
is_group c name = is_some (get name (get_groups c))

abbrev any_groups : Dict ProfileConfig → Bool
any_groups [] = false
any_groups ((name, profile) ∷ m) = not (is_empty profile.groups) || any_groups m

unfoldable pub has_groups : Config → Bool
has_groups c = any_groups (entries c.profiles)

pub data GroupError : Type 0 where
  name_conflict : Str → GroupError
  no_such_group : Str → GroupError
  invalid_mode : Str → Str → GroupError

unfoldable pub first_conflict : Dict (List Str) → Dict ProfileConfig → Option GroupError
unfolding get
first_conflict [] profiles = none
first_conflict ((g, names) ∷ groups) profiles =
    let rest = first_conflict groups profiles in
    if is_some (get g profiles) then some (name_conflict g) else rest

abbrev pub is_mode : Str → Bool
is_mode mode = str_eq mode (str "aggregate") || (str_eq mode (str "cluster") || str_eq mode [])

unfoldable pub first_bad_setting : Dict GroupSettingsConfig → Dict (List Str) → Option GroupError
unfolding get
first_bad_setting [] groups = none
first_bad_setting ((name, settings) ∷ rest) groups =
    let later = first_bad_setting rest groups in
    if not (is_some (get name groups))
    then some (no_such_group name)
    else if is_mode settings.mode
    then later
    else some (invalid_mode name settings.mode)

abbrev pub or_error : Option GroupError → Option GroupError → Option GroupError
or_error (some e) later = some e
or_error none later = later

unfoldable pub validate_groups : Config → Option GroupError
unfolding get_groups first_conflict first_bad_setting
validate_groups c =
    let groups = get_groups c in
    or_error (first_conflict groups (entries c.profiles))
      (first_bad_setting c.group_settings groups)

unfoldable pub conflicts_among : Dict (List Str) → Dict ProfileConfig → List Str
unfolding get
conflicts_among [] profiles = []
conflicts_among ((g, names) ∷ groups) profiles =
    let rest = conflicts_among groups profiles in
    if is_some (get g profiles) then g ∷ rest else rest

unfoldable pub find_group_profile_name_conflicts : Config → List Str
unfolding get_groups conflicts_among sort_strings
find_group_profile_name_conflicts c =
    sort_strings (conflicts_among (get_groups c) (entries c.profiles))

abbrev pub mode_of : Option GroupSettingsConfig → Str
mode_of none = str "aggregate"
mode_of (some settings) =
    if str_eq settings.mode (str "cluster") then str "cluster" else str "aggregate"

unfoldable pub get_group_mode : Config → Str → Str
unfolding get
get_group_mode c group_name = mode_of (get group_name c.group_settings)

unfoldable pub is_cluster_group : Config → Str → Bool
unfolding get_group_mode
is_cluster_group c group_name = str_eq (get_group_mode c group_name) (str "cluster")

unfoldable pub set_group_mode : Config → Str → Str → Config
unfolding put delete
set_group_mode c group_name mode = record c {
  group_settings =
      if str_eq mode (str "aggregate") || str_eq mode []
      then delete group_name c.group_settings
      else put group_name (record { mode = mode }) c.group_settings;
}
