-- ===== src/Config/Normalized.antt =====
-- ProfileConfig.Validate and the modes of the groups.
use pvetui.Base.{
  [], ◌∷◌, ◌++◌, none, some, true, false, ◌&&◌, ◌||◌, Str, str, str_eq, str_eq_iff, ◌==◌,
  if◌then◌else◌, get, get-put, get-delete, ◌≡◌, ◌≢◌, ◌↔◌, inl, inr, refl, ap, ◌∙◌, arith,
  Bool-cases,
}
use pvetui.Config.{Config, ProfileConfig, trim_slashes, validate_profile}
use pvetui.Config.Groups.{get_group_mode, set_group_mode, mode_of}
use pvetui.Config.Fitting.{CanLogin, login_check_iff}
use pvetui.Config.Validation.{login_check}

-- A run of slashes.
abbrev pub Slashes : Str → Type 0
Slashes [] = Unit
Slashes (c ∷ s) = (c ≡ b'/') × Slashes s

trim_slashes_lem : (s : Str) → (run : Str) × (s ≡ trim_slashes s ++ run) × Slashes run
unfolding trim_slashes
trim_slashes_lem [] = ([], refl, tt)
trim_slashes_lem (c ∷ s) =
    let (run, e, h) = trim_slashes_lem s in
    elim (Bool-cases (str_eq (trim_slashes s) [] && c == b'/')) [
      | inl y ↦ rw y (c ∷ run, ap (◌∷◌ c) (whole y e), (slash y, h))
      | inr n ↦ rw n (run, ap (◌∷◌ c) e, h)
    ]
  where
    slash : str_eq (trim_slashes s) [] && c == b'/' ≡ true → c ≡ b'/'
    slash y = ground arith

    nothing : str_eq (trim_slashes s) [] && c == b'/' ≡ true → trim_slashes s ≡ []
    nothing y = ground (arith, str_eq_iff (trim_slashes s) [])

    whole :
        {run : Str}
        → str_eq (trim_slashes s) [] && c == b'/' ≡ true
        → s ≡ trim_slashes s ++ run
        → s ≡ run
    whole {run} y e = e ∙ ap (λ t. t ++ run) (nothing y)

trim_slashes-Slashes : (s : Str) → Slashes s → trim_slashes s ≡ []
unfolding trim_slashes
trim_slashes-Slashes [] h = refl
trim_slashes-Slashes (c ∷ s) h =
    ground (arith, trim_slashes-Slashes s (h.1), str_eq_iff (trim_slashes s) [])

validate_profile_iff : (p : ProfileConfig) → ((validate_profile p).1 ≡ none) ↔ CanLogin p.connection
unfolding validate_profile
validate_profile_iff p = ground (arith, login_check_iff p.connection, same)
  where
    same : (validate_profile p).1 ≡ login_check p.connection
    same = unfold login_check in ground arith

trimmed_addr :
    (p : ProfileConfig)
    → p.connection.addr ≢ []
    → (validate_profile p).0.connection.addr ≡ trim_slashes p.connection.addr
unfolding validate_profile
trimmed_addr p h = ground (arith, str_eq_iff p.connection.addr [])

-- A profile whose address is nothing but slashes, with the rest in order, passes ProfileConfig.Validate,
-- which leaves it without an address.
validate_profile-Slashes :
    (p : ProfileConfig)
    → CanLogin p.connection
    → Slashes p.connection.addr
    → ((validate_profile p).1 ≡ none) × ((validate_profile p).0.connection.addr ≡ [])
validate_profile-Slashes p ok s =
    ((validate_profile_iff p).1 ok, trimmed_addr p ok.0 ∙ trim_slashes-Slashes p.connection.addr s)

-- The mode of a group after it is set: cluster where that was asked for, and else the default; the mode
-- of every other group is as before.
get_group_mode-set_group_mode :
    (c : Config) (g other mode : Str)
    → get_group_mode (set_group_mode c g mode) other ≡ (
        if str_eq g other
        then (if str_eq mode (str "cluster") then str "cluster" else str "aggregate")
        else get_group_mode c other)
unfolding get_group_mode set_group_mode
get_group_mode-set_group_mode c g other mode =
    elim (Bool-cases (str_eq mode (str "aggregate") || str_eq mode [])) [
      | inl y ↦ rw (y, get-delete g other c.group_settings) (by_default y)
      | inr n ↦ rw (n, get-put g other (record { mode = mode }) c.group_settings) by_mode
    ]
  where
    aggregate_ne : str_eq (str "aggregate") (str "cluster") ≡ false
    aggregate_ne = unfold str_eq in refl

    empty_ne : str_eq [] (str "cluster") ≡ false
    empty_ne = unfold str_eq in refl

    not_cluster :
        str_eq mode (str "aggregate") || str_eq mode [] ≡ true → str_eq mode (str "cluster") ≡ false
    not_cluster y = elim (Bool-cases (str_eq mode (str "aggregate"))) [
      | inl e ↦ rw ((str_eq_iff mode (str "aggregate")).0 e) aggregate_ne
      | inr n ↦ rw ((str_eq_iff mode []).0 (rw n at y)) empty_ne
    ]

    by_default :
        str_eq mode (str "aggregate") || str_eq mode [] ≡ true
        → mode_of (if str_eq g other then none else get other c.group_settings) ≡ (
            if str_eq g other
            then (if str_eq mode (str "cluster") then str "cluster" else str "aggregate")
            else mode_of (get other c.group_settings))
    by_default y = elim (Bool-cases (str_eq g other)) [
      | inl e ↦ rw (e, not_cluster y) refl
      | inr n ↦ rw n refl
    ]

    by_mode :
        mode_of
          (if str_eq g other then some (record { mode = mode }) else get other c.group_settings)
        ≡ (if str_eq g other
            then (if str_eq mode (str "cluster") then str "cluster" else str "aggregate")
            else mode_of (get other c.group_settings))
    by_mode = elim (Bool-cases (str_eq g other)) [ inl e ↦ rw e refl | inr n ↦ rw n refl ]
