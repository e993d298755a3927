-- ===== src/Config/Selection.antt =====
-- Which connection the getters give after a profile is applied, and after the migration of a
-- configuration without profiles.
use pvetui.Base.{
  [], ◌∷◌, Option, none, some, true, false, not, ◌||◌, Str, str, str_eq, str_eq_iff, Dict, get, put,
  ◌≡◌, ◌≢◌, ◌⊎◌, inl, inr, refl, arith, Bool-cases, Option-cases,
}
use pvetui.Config.{
  Config, ProfileConfig, Connection, ProfileError, not_found, no_profiles, entries, is_empty,
  is_set, apply_profile, migrate_legacy_to_profiles, get_active_profile, has_legacy_fields,
  no_connection,
}
use pvetui.Config.Getters.{effective}

set_of_ne : (s : Str) → s ≢ [] → is_set s ≡ true
set_of_ne s h = ground (arith, str_eq_iff s [])

nonempty {ℓ} : {A : Type ℓ} (k : Str) (a : A) (m : Dict A) → get k m ≡ some a → is_empty m ≡ false
unfolding get
nonempty k a [] h = cc
nonempty k a (e ∷ m) h = refl

-- Applying a profile with a name either finds it, and then every getter and the deprecated fields, of
-- which the API token is made, give that profile's connection; or it fails and changes nothing.
pub apply_profile_cases :
    (c : Config) (name : Str)
    → name ≢ []
    → let r = apply_profile c name in
      ((p : ProfileConfig) × (get name (entries c.profiles) ≡ some p)
        × (r.1 ≡ none)
        × (effective r.0 ≡ p.connection)
        × (r.0.legacy ≡ p.connection)
        × (get_active_profile r.0 ≡ name))
      ⊎ ((e : ProfileError) × (get name (entries c.profiles) ≡ none) × (r ≡ (c, some e)))
unfolding apply_profile effective get_active_profile
apply_profile_cases c name h = elim (Option-cases c.profiles) [
  | inl e ↦ rw e (inr (no_profiles, get_nothing, refl))
  | inr (m, e) ↦ elim (Option-cases (get name m)) [
    | inl g ↦ rw (e, g) (inr (not_found name, refl, refl))
    | inr (p, g) ↦
        rw (e, g)
          (inl (
            p,
            refl,
            refl,
            rw (nonempty name p m g, set_of_ne name h, g) refl,
            refl,
            rw (set_of_ne name h) refl,
          ))
  ]
]
  where
    get_nothing : get {V = ProfileConfig} name [] ≡ none
    get_nothing = unfold get in refl

no_entries : (o : Option (Dict ProfileConfig)) → is_empty (entries o) ≡ true → entries o ≡ []
no_entries none h = refl
no_entries (some []) h = refl
no_entries (some (e ∷ m)) h = cc

only_default :
    (active : Str) (l : Connection)
    → effective (record {
      profiles = some (put (str "default") (record { connection = l; groups = [] }) []);
      default_profile = str "default";
      active_profile = active;
      group_settings = [];
      legacy = no_connection;
    })
      ≡ l
unfolding effective get put str_eq
only_default active l = elim (Bool-cases (is_set active)) [
  | inr n ↦ rw n refl
  | inl y ↦ elim (Bool-cases (str_eq (str "default") active)) [
    | inl e ↦ rw (y, e) refl
    | inr e ↦ rw (y, e) refl
  ]
]

-- Migrating the deprecated fields to a profile does not change the connection that GetAddr, GetUser,
-- GetPassword, GetRealm, GetTokenID, GetTokenSecret, GetInsecure and the other getters of single fields
-- give, whichever profile is active, and a second migration does nothing. GetAPIToken and
-- IsUsingTokenAuth are not meant: they read the deprecated fields, which the migration clears.
pub migrate_legacy_to_profiles-effective :
    (c : Config)
    → (effective (migrate_legacy_to_profiles c).0 ≡ effective c)
      × ((migrate_legacy_to_profiles (migrate_legacy_to_profiles c).0).1 ≡ false)
unfolding migrate_legacy_to_profiles effective
migrate_legacy_to_profiles-effective c =
    elim (Bool-cases (not (has_legacy_fields c.legacy) || not (is_empty (entries c.profiles)))) [
      | inl y ↦ rw y (refl, rw y refl)
      | inr n ↦ rw n (
        rw (no_entries c.profiles (emptied n)) (only_default c.active_profile c.legacy),
        unfold str_eq in refl,
      )
    ]
  where
    emptied :
        not (has_legacy_fields c.legacy) || not (is_empty (entries c.profiles)) ≡ false
        → is_empty (entries c.profiles) ≡ true
    emptied n = ground arith
