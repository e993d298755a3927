-- ===== src/GroupClients/Guests/Tests.antt =====
-- Runs of the search in a group at concrete guests, and the theorem applied there.
use pvetui.Base.{
  List, [], ◌∷◌, Option, none, some, str, str_eq, pos, ◌≡◌, inl, inr, refl, subst, arith,
}
use pvetui.GroupClients.Guests.{Guest, all_guests, find_vm_by_id_in_group, found, ambiguous}
use pvetui.GroupClients.Guests.Ambiguous.{
  IsRegular, AllRegular, NoneFound, OneFound, IsAmbiguous, find_vm_by_id_in_group_cases,
}

abbrev home_guest : Guest
home_guest = record {
  id = pos 100;
  name = str "web";
  node = str "pve";
  kind = str "qemu";
  source_profile = str "home";
}

abbrev work_guest : Guest
work_guest = record {
  id = pos 100;
  name = str "db";
  node = str "pve";
  kind = str "qemu";
  source_profile = str "work";
}

abbrev other_guest : Guest
other_guest = record {
  id = pos 100;
  name = str "dns";
  node = str "pve2";
  kind = str "lxc";
  source_profile = str "work";
}

abbrev two_profiles : List (List (Option Guest))
two_profiles = (some home_guest ∷ none ∷ []) ∷ (some work_guest ∷ []) ∷ []

-- The guest of the other profile is never mentioned.
first_answers : find_vm_by_id_in_group two_profiles (pos 100) ≡ found home_guest (str "home")
unfolding find_vm_by_id_in_group str_eq
first_answers = refl

two_answer :
    find_vm_by_id_in_group ((some other_guest ∷ []) ∷ (some home_guest ∷ []) ∷ []) (pos 100)
    ≡ ambiguous (pos 100) (home_guest ∷ other_guest ∷ [])
unfolding find_vm_by_id_in_group str_eq
two_answer = refl

home_guest-IsRegular : IsRegular home_guest
home_guest-IsRegular = (
  inl refl,
  λ e. elim e [
    | inl p ↦ omega (arith, p)
    | inr m ↦ elim m [
      | inl q ↦ omega (arith, q)
      | inr l ↦ elim l [ inl r ↦ omega (arith, r) | inr b ↦ b ]
    ]
  ],
)

work_guest-IsRegular : IsRegular work_guest
work_guest-IsRegular = (inl refl, home_guest-IsRegular.1)

two_profiles-AllRegular : AllRegular (all_guests two_profiles)
unfolding all_guests
two_profiles-AllRegular v e = elim e [
  | inl p ↦ subst IsRegular (some_same home_guest p) home_guest-IsRegular
  | inr l ↦ elim l [
    | inl q ↦ absurd (none_some q)
    | inr m ↦ elim m [
      | inl p ↦ subst IsRegular (some_same work_guest p) work_guest-IsRegular
      | inr b ↦ absurd b
    ]
  ]
]
  where
    some_same : (g : Guest) → some g ≡ some v → g ≡ v
    some_same g p = cc

    none_some : none ≡ some v → ⊥
    none_some q = cc

find_vm_by_id_in_group_cases_example :
    NoneFound (all_guests two_profiles) (pos 100) (find_vm_by_id_in_group two_profiles (pos 100))
    × (OneFound (all_guests two_profiles) (pos 100) (find_vm_by_id_in_group two_profiles (pos 100))
        × IsAmbiguous
            (all_guests two_profiles)
            (pos 100)
            (find_vm_by_id_in_group two_profiles (pos 100)))
find_vm_by_id_in_group_cases_example =
    find_vm_by_id_in_group_cases two_profiles (pos 100) two_profiles-AllRegular
