-- ===== src/Config/Verdicts.antt =====
-- What Validate accepts.
use pvetui.Base.{
  List, [], ◌∷◌, Option, none, some, Bool, true, false, Str, str_eq, str_eq_iff, if◌then◌else◌,
  Dict, get, ◌≡◌, ◌≢◌, ◌⊎◌, ◌↔◌, inl, inr, refl, arith, Bool-cases, Option-cases, All,
}
use pvetui.Config.{Config, ProfileConfig, entries, is_empty, is_set, get_active_profile}
use pvetui.Config.Getters.{effective}
use pvetui.Config.Groups.{GroupError, validate_groups, is_group, get_profile_names_in_group}
use pvetui.Config.Validation.{
  in_legacy, in_profile, ConfigError, login_check, placed, check_group, check_selection,
  from_groups, validate_connections,
}
use pvetui.Config.Fitting.{
  CanLogin, login_check_iff, ProfileCanLogin, placed_iff, check_found_iff, check_members_iff,
  GroupsFit, validate_groups_iff,
}

-- What the active or default name must stand for: nothing, a group whose members can log in, or a
-- profile that can.
abbrev pub SelectionFits : Config → Str → Type 0
SelectionFits c name =
    (name ≡ [])
    ⊎ (((is_group c name ≡ true)
          × ((get_profile_names_in_group c name ≢ [])
              × All (λ member. ProfileCanLogin (get member (entries c.profiles)))
                  (get_profile_names_in_group c name)))
        ⊎ ((is_group c name ≡ false) × ProfileCanLogin (get name (entries c.profiles))))

check_group_iff :
    (g : Str) (names : List Str) (profiles : Dict ProfileConfig)
    → (check_group g names profiles ≡ none)
      ↔ ((names ≢ []) × All (λ name. ProfileCanLogin (get name profiles)) names)
unfolding check_group
check_group_iff g [] profiles = (λ h. cc, λ h. absurd (h.0 refl))
check_group_iff g (name ∷ names) profiles =
    let r = check_members_iff g (name ∷ names) profiles in (λ h. (λ e. cc, r.0 h), λ h. r.1 h.1)

chosen_iff :
    {E A B : Type 0} (b g : Bool) (o o' : Option ConfigError)
    → (b ≡ true) ↔ E
    → (o ≡ none) ↔ A
    → (o' ≡ none) ↔ B
    → ((if b then none else if g then o else o') ≡ none)
      ↔ (E ⊎ (((g ≡ true) × A) ⊎ ((g ≡ false) × B)))
chosen_iff true g o o' e a b = (λ h. inl (e.0 refl), λ h. refl)
chosen_iff false true o o' e a b = (
  λ h. inr (inl (refl, a.0 h)),
  λ h. elim h [
    | inl x ↦ let q = e.1 x in cc
    | inr s ↦ elim s [ inl r ↦ a.1 r.1 | inr r ↦ let q = r.0 in cc ]
  ],
)
chosen_iff false false o o' e a b = (
  λ h. inr (inr (refl, b.0 h)),
  λ h. elim h [
    | inl x ↦ let q = e.1 x in cc
    | inr s ↦ elim s [ inl r ↦ let q = r.0 in cc | inr r ↦ b.1 r.1 ]
  ],
)

check_selection_iff :
    (c : Config) (name : Str) → (check_selection c name ≡ none) ↔ SelectionFits c name
unfolding check_selection
check_selection_iff c name =
    chosen_iff (str_eq name []) (is_group c name) _ _ (str_eq_iff name [])
      (check_group_iff name (get_profile_names_in_group c name) (entries c.profiles))
      (check_found_iff (in_profile name) (get name (entries c.profiles)))

from_groups_iff :
    {P Q : Type 0} (o : Option GroupError) (later : Option ConfigError)
    → (o ≡ none) ↔ P
    → (later ≡ none) ↔ Q
    → (from_groups o later ≡ none) ↔ (P × Q)
from_groups_iff none later a b = (λ h. (a.0 refl, b.0 h), λ h. b.1 h.1)
from_groups_iff (some e) later a b = (λ h. cc, λ h. let q = a.1 h.0 in cc)

-- What Validate wants of the connections: without profiles, that the deprecated fields can log in; else
-- that the groups and their settings fit, and what the active or default name stands for.
abbrev pub ConnectionsFit : Config → Type 0
ConnectionsFit c =
    ((is_empty (entries c.profiles) ≡ true) × CanLogin c.legacy)
    ⊎ ((is_empty (entries c.profiles) ≡ false)
        × (GroupsFit c × SelectionFits c (get_active_profile c)))

-- Validate accepts the connections of a configuration exactly where they fit.
pub validate_connections_iff : (c : Config) → (validate_connections c ≡ none) ↔ ConnectionsFit c
unfolding validate_connections
validate_connections_iff c = by_profiles (is_empty (entries c.profiles))
  where
    legacy : (placed in_legacy (login_check c.legacy) ≡ none) ↔ CanLogin c.legacy
    legacy = (
      λ h. (login_check_iff c.legacy).0 ((placed_iff in_legacy (login_check c.legacy)).0 h),
      λ h. (placed_iff in_legacy (login_check c.legacy)).1 ((login_check_iff c.legacy).1 h),
    )

    by_profiles :
        (b : Bool)
        → ((if b
              then placed in_legacy (login_check c.legacy)
              else from_groups (validate_groups c) (check_selection c (get_active_profile c)))
            ≡ none)
          ↔ (((b ≡ true) × CanLogin c.legacy)
              ⊎ ((b ≡ false) × (GroupsFit c × SelectionFits c (get_active_profile c))))
    by_profiles true = (
      λ h. inl (refl, legacy.0 h),
      λ h. elim h [ inl r ↦ legacy.1 r.1 | inr r ↦ let q = r.0 in cc ],
    )
    by_profiles false =
        let r =
          from_groups_iff (validate_groups c) (check_selection c (get_active_profile c))
            (validate_groups_iff c) (check_selection_iff c (get_active_profile c)) in
        (λ h. inr (refl, r.0 h), λ h. elim h [ inl s ↦ let q = s.0 in cc | inr s ↦ r.1 s.1 ])

-- Where the active or default name is that of a profile, the getters give that profile's connection.
effective_selected :
    (c : Config) (p : ProfileConfig)
    → is_empty (entries c.profiles) ≡ false
    → get_active_profile c ≢ []
    → get (get_active_profile c) (entries c.profiles) ≡ some p
    → effective c ≡ p.connection
unfolding effective get_active_profile
effective_selected c p m h g = elim (Bool-cases (is_set c.active_profile)) [
  | inl y ↦ rw (m, y, (rw y at g)) refl
  | inr n ↦ rw (m, n, default_set n, (rw n at g)) refl
]
  where
    default_set : is_set c.active_profile ≡ false → is_set c.default_profile ≡ true
    default_set n = ground (arith, str_eq_iff c.default_profile [])

-- In a configuration that Validate accepts, unless the name selected is that of a group, or profiles exist
-- and none is selected, the connection that the getters of single fields give (GetAddr, GetUser,
-- GetPassword, GetTokenID, GetTokenSecret and their like) has an address, a user, and a password or a
-- token. GetAPIToken and IsUsingTokenAuth are not meant: they read the deprecated fields alone.
pub validate_connections-CanLogin :
    (c : Config)
    → validate_connections c ≡ none
    → is_group c (get_active_profile c) ≡ false
    → (is_empty (entries c.profiles) ≡ true) ⊎ (get_active_profile c ≢ [])
    → CanLogin (effective c)
unfolding effective
validate_connections-CanLogin c h g s = elim ((validate_connections_iff c).0 h) [
  | inl (e, ok) ↦ rw (no_profiles_effective e) ok
  | inr (e, (groups, fits)) ↦ elim fits [
    | inl nil ↦ absurd (selected e nil s)
    | inr (inl (y, members)) ↦ absurd (clash y)
    | inr (inr (n, ok)) ↦ elim (Option-cases (get (get_active_profile c) (entries c.profiles))) [
      | inl missing ↦ absurd (rw missing at ok)
      | inr (p, found) ↦ rw (effective_selected c p e (unselected e s) found) (rw found at ok)
    ]
  ]
]
  where
    no_profiles_effective : is_empty (entries c.profiles) ≡ true → effective c ≡ c.legacy
    no_profiles_effective e = rw e refl

    clash : is_group c (get_active_profile c) ≡ true → ⊥
    clash y = ground arith

    unselected :
        is_empty (entries c.profiles) ≡ false
        → (is_empty (entries c.profiles) ≡ true) ⊎ (get_active_profile c ≢ [])
        → get_active_profile c ≢ []
    unselected e (inl f) = absurd (ground arith)
    unselected e (inr k) = k

    selected :
        is_empty (entries c.profiles) ≡ false
        → get_active_profile c ≡ []
        → (is_empty (entries c.profiles) ≡ true) ⊎ (get_active_profile c ≢ [])
        → ⊥
    selected e nil (inl f) = ground arith
    selected e nil (inr k) = k nil
