-- ===== src/Config/Fitting.antt =====
-- When the checks of a login, of the profiles of a list and of the groups pass.
use pvetui.Base.{
  List, [], ◌∷◌, Option, none, some, true, Str, str, str_eq_iff, Dict, get, ◌≡◌, ◌≢◌, ◌⊎◌, ◌↔◌,
  refl, arith, All, is_some,
}
use pvetui.Config.{Config, ProfileConfig, Connection, LoginProblem, GroupSettingsConfig, entries}
use pvetui.Config.Groups.{
  GroupError, validate_groups, first_conflict, first_bad_setting, get_groups, or_error,
}
use pvetui.Config.Validation.{
  Place, in_member, ConfigError, login_check, placed, check_found, or_later, check_members,
}

-- An address, a user, and either a password or a whole token, not both.
abbrev pub CanLogin : Connection → Type 0
CanLogin c =
    (c.addr ≢ [])
    × (c.user ≢ [])
    × (((c.password ≢ []) × ((c.token_id ≡ []) ⊎ (c.token_secret ≡ [])))
        ⊎ ((c.password ≡ []) × (c.token_id ≢ []) × (c.token_secret ≢ [])))

pub login_check_iff : (c : Connection) → (login_check c ≡ none) ↔ CanLogin c
unfolding login_check
login_check_iff c = ground (
  arith,
  str_eq_iff c.addr [],
  str_eq_iff c.user [],
  str_eq_iff c.password [],
  str_eq_iff c.token_id [],
  str_eq_iff c.token_secret [],
)

-- The profile is there and can log in.
abbrev pub ProfileCanLogin : Option ProfileConfig → Type 0
ProfileCanLogin none = ⊥
ProfileCanLogin (some p) = CanLogin p.connection

pub placed_iff : (place : Place) (o : Option LoginProblem) → (placed place o ≡ none) ↔ (o ≡ none)
placed_iff place none = (λ h. refl, λ h. refl)
placed_iff place (some problem) = (λ h. cc, λ h. cc)

pub check_found_iff :
    (place : Place) (o : Option ProfileConfig) → (check_found place o ≡ none) ↔ ProfileCanLogin o
check_found_iff place none = (λ h. cc, λ r. absurd r)
check_found_iff place (some p) = (
  λ h. (login_check_iff p.connection).0 ((placed_iff place (login_check p.connection)).0 h),
  λ r. (placed_iff place (login_check p.connection)).1 ((login_check_iff p.connection).1 r),
)

-- The modes that a group's settings may have.
abbrev pub IsMode : Str → Type 0
IsMode mode = (mode ≡ str "aggregate") ⊎ ((mode ≡ str "cluster") ⊎ (mode ≡ []))

first_conflict_iff :
    (groups : Dict (List Str)) (profiles : Dict ProfileConfig)
    → (first_conflict groups profiles ≡ none) ↔ All (λ e. get (e.0) profiles ≡ none) groups
unfolding first_conflict
first_conflict_iff [] profiles = ground arith
first_conflict_iff ((g, names) ∷ groups) profiles =
    ground (arith, first_conflict_iff groups profiles)

first_bad_setting_iff :
    (settings : Dict GroupSettingsConfig) (groups : Dict (List Str))
    → (first_bad_setting settings groups ≡ none)
      ↔ All (λ e. (is_some (get (e.0) groups) ≡ true) × IsMode e.1.mode) settings
unfolding first_bad_setting
first_bad_setting_iff [] groups = ground arith
first_bad_setting_iff ((name, s) ∷ settings) groups = ground (
  arith,
  first_bad_setting_iff settings groups,
  str_eq_iff s.mode (str "aggregate"),
  str_eq_iff s.mode (str "cluster"),
  str_eq_iff s.mode [],
)

or_later_iff : (a b : Option ConfigError) → (or_later a b ≡ none) ↔ ((a ≡ none) × (b ≡ none))
or_later_iff none b = (λ h. (refl, h), λ h. h.1)
or_later_iff (some e) b = (λ h. cc, λ h. cc (h.0))

pub check_members_iff :
    (g : Str) (names : List Str) (profiles : Dict ProfileConfig)
    → (check_members g names profiles ≡ none)
      ↔ All (λ name. ProfileCanLogin (get name profiles)) names
unfolding check_members
check_members_iff g [] profiles = (λ h. tt, λ h. refl)
check_members_iff g (name ∷ names) profiles =
    let one = check_found_iff (in_member g name) (get name profiles) in
    let rest = check_members_iff g names profiles in
    let both =
      or_later_iff (check_found (in_member g name) (get name profiles))
        (check_members g names profiles) in
    (λ h. (one.0 (both.0 h).0, rest.0 (both.0 h).1), λ h. both.1 (one.1 h.0, rest.1 h.1))

-- Every group name is free, and every entry of the group settings names a group and a mode.
abbrev pub GroupsFit : Config → Type 0
GroupsFit c =
    All (λ e. get (e.0) (entries c.profiles) ≡ none) (get_groups c)
    × All (λ e. (is_some (get (e.0) (get_groups c)) ≡ true) × IsMode e.1.mode) c.group_settings

pub validate_groups_iff : (c : Config) → (validate_groups c ≡ none) ↔ GroupsFit c
unfolding validate_groups
validate_groups_iff c =
    let a = first_conflict_iff (get_groups c) (entries c.profiles) in
    let b = first_bad_setting_iff c.group_settings (get_groups c) in
    split (first_conflict (get_groups c) (entries c.profiles))
      (first_bad_setting c.group_settings (get_groups c)) a b
  where
    split :
        {P Q : Type 0} (o o' : Option GroupError)
        → (o ≡ none) ↔ P
        → (o' ≡ none) ↔ Q
        → (or_error o o' ≡ none) ↔ (P × Q)
    split none o' a b = (λ h. (a.0 refl, b.0 h), λ h. b.1 h.1)
    split (some e) o' a b = (λ h. cc, λ h. let q = a.1 h.0 in cc)
