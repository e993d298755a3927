-- ===== src/Config/Membership.antt =====
-- The two views of the groups agree: GetGroups and GetProfileNamesInGroup.
use pvetui.Base.{
  List, [], ◌∷◌, ◌++◌, none, some, true, false, Str, str_eq, str_eq_iff, str_eq_refl, Dict, get,
  put, get-put, ◌≡◌, ◌≢◌, ◌⊎◌, ◌↔◌, inl, inr, refl, sym, ◌∙◌, arith, Bool-cases, Option-cases, Elem,
  is_some, sort_strings, Elem-sort_strings,
}
use pvetui.Config.{Config, ProfileConfig, entries}
use pvetui.Config.Groups.{
  listed, add_member, collect_groups, sort_members, get_groups, in_group, members_in,
  get_profile_names_in_group, is_group,
}

Elem-snoc : (x y : Str) (xs : List Str) → Elem x (xs ++ y ∷ []) ↔ (Elem x xs ⊎ (y ≡ x))
Elem-snoc x y [] = ground arith
Elem-snoc x y (z ∷ xs) = ground (arith, Elem-snoc x y xs)

abbrev Added : Str → List Str → Dict (List Str) → Str → Str → Type 0
Added name gs groups g x =
    Elem x (listed (get g (add_member name gs groups)))
    ↔ (Elem x (listed (get g groups)) ⊎ ((name ≡ x) × (in_group g gs ≡ true)))

-- One group more, by the group's name.
joins_group :
    (name : Str) (gs : List Str) (groups : Dict (List Str)) (g x : Str)
    → Added name gs (put g (listed (get g groups) ++ name ∷ []) groups) g x
    → Elem x
        (listed (get g (add_member name gs (put g (listed (get g groups) ++ name ∷ []) groups))))
      ↔ (Elem x (listed (get g groups)) ⊎ ((name ≡ x) × (true ≡ true)))
joins_group name gs groups g x ih = (
  λ e. elim (ih.0 e) [
    | inr r ↦ inr (r.0, refl)
    | inl a ↦ elim ((Elem-snoc x name (listed (get g groups))).0 (rw put_here at a)) [
      | inl b ↦ inl b
      | inr q ↦ inr (q, refl)
    ]
  ],
  λ e. ih.1 (inl (rw put_here ((Elem-snoc x name (listed (get g groups))).1 (member e)))),
)
  where
    put_here :
        get g (put g (listed (get g groups) ++ name ∷ []) groups)
        ≡ some (listed (get g groups) ++ name ∷ [])
    put_here =
        ground (arith, get-put g g (listed (get g groups) ++ name ∷ []) groups, str_eq_refl g)

    member :
        Elem x (listed (get g groups)) ⊎ ((name ≡ x) × (true ≡ true))
        → Elem x (listed (get g groups)) ⊎ (name ≡ x)
    member (inl a) = inl a
    member (inr r) = inr (r.0)

-- What a group holds after a profile's groups are added.
add_member_iff :
    (name : Str) (gs : List Str) (groups : Dict (List Str)) (g x : Str)
    → g ≢ []
    → Added name gs groups g x
unfolding add_member in_group
add_member_iff name [] groups g x h = ground arith
add_member_iff name (j ∷ gs) groups g x h = elim (Bool-cases (str_eq j [])) [
  | inl y ↦ rw (y, blank y) (add_member_iff name gs groups g x h)
  | inr n ↦ elim (Bool-cases (str_eq j g)) [
    | inr f ↦
        rw (n, f)
          (rw (other f) at
            (add_member_iff name gs (put j (listed (get j groups) ++ name ∷ []) groups) g x h))
    | inl y ↦
        rw (n, y, (str_eq_iff j g).0 y)
          (joins_group name gs groups g x
            (add_member_iff name gs (put g (listed (get g groups) ++ name ∷ []) groups) g x h))
  ]
]
  where
    blank : str_eq j [] ≡ true → str_eq j g ≡ false
    blank y = ground (arith, str_eq_iff j [], str_eq_iff j g)

    other :
        str_eq j g ≡ false
        → get g (put j (listed (get j groups) ++ name ∷ []) groups) ≡ get g groups
    other f = ground (arith, get-put j g (listed (get j groups) ++ name ∷ []) groups)

collect_groups_iff :
    (m : Dict ProfileConfig) (groups : Dict (List Str)) (g x : Str)
    → g ≢ []
    → Elem x (listed (get g (collect_groups m groups)))
      ↔ (Elem x (listed (get g groups)) ⊎ Elem x (members_in g m))
unfolding collect_groups members_in
collect_groups_iff [] groups g x h = ground arith
collect_groups_iff ((name, p) ∷ m) groups g x h = ground (
  arith,
  collect_groups_iff m (add_member name p.groups groups) g x,
  add_member_iff name p.groups groups g x,
)

get-sort_members :
    (g : Str) (m : Dict (List Str))
    → get g (sort_members m)
      ≡ elim (get g m) [ none ↦ none | some names ↦ some (sort_strings names) ]
unfolding sort_members get
get-sort_members g [] = refl
get-sort_members g ((j, names) ∷ m) = ground (arith, get-sort_members g m)

-- No group is stored without a member.
abbrev NoEmpty : Dict (List Str) → Type 0
NoEmpty groups = (g : Str) → get g groups ≢ some []

add_member-NoEmpty :
    (name : Str) (gs : List Str) (groups : Dict (List Str))
    → NoEmpty groups
    → NoEmpty (add_member name gs groups)
unfolding add_member
add_member-NoEmpty name [] groups h = h
add_member-NoEmpty name (j ∷ gs) groups h = elim (Bool-cases (str_eq j [])) [
  | inl y ↦ rw y (add_member-NoEmpty name gs groups h)
  | inr n ↦
      rw n
        (add_member-NoEmpty name gs (put j (listed (get j groups) ++ name ∷ []) groups) put_there)
]
  where
    not_nil : (xs : List Str) → xs ++ name ∷ [] ≢ []
    not_nil [] e = cc
    not_nil (z ∷ xs) e = cc

    put_there : NoEmpty (put j (listed (get j groups) ++ name ∷ []) groups)
    put_there g e = ground (
      arith,
      get-put j g (listed (get j groups) ++ name ∷ []) groups,
      h g,
      not_nil (listed (get j groups)),
    )

collect_groups-NoEmpty :
    (m : Dict ProfileConfig) (groups : Dict (List Str))
    → NoEmpty groups
    → NoEmpty (collect_groups m groups)
unfolding collect_groups
collect_groups-NoEmpty [] groups h = h
collect_groups-NoEmpty ((name, p) ∷ m) groups h =
    collect_groups-NoEmpty m _ (add_member-NoEmpty name p.groups groups h)

listed_sorted :
    (g x : Str) (m : Dict (List Str))
    → Elem x (listed (get g (sort_members m))) ↔ Elem x (listed (get g m))
listed_sorted g x m = elim (Option-cases (get g m)) [
  | inl e ↦ rw (get-sort_members g m, e) (λ h. h, λ h. h)
  | inr (names, e) ↦ rw (get-sort_members g m, e) (Elem-sort_strings x names)
]

-- A group is there exactly where it has a member.
some_member :
    (g : Str) (m : Dict (List Str))
    → NoEmpty m
    → (is_some (get g m) ≡ true) ↔ ((x : Str) × Elem x (listed (get g m)))
some_member g m h = elim (Option-cases (get g m)) [
  | inl e ↦ rw e (λ p. cc, λ r. absurd r.1)
  | inr (names, e) ↦ rw e (λ p. first names e, λ r. refl)
]
  where
    first : (names : List Str) → get g m ≡ some names → (x : Str) × Elem x names
    first [] e = absurd (h g e)
    first (x ∷ names) e = (x, inl refl)

is_some_sorted :
    (g : Str) (m : Dict (List Str)) → is_some (get g (sort_members m)) ≡ is_some (get g m)
is_some_sorted g m = elim (Option-cases (get g m)) [
  | inl e ↦ rw (get-sort_members g m, e) refl
  | inr (names, e) ↦ rw (get-sort_members g m, e) refl
]

in_both :
    (c : Config) (g name : Str)
    → g ≢ []
    → Elem name (listed (get g (collect_groups (entries c.profiles) [])))
      ↔ Elem name (get_profile_names_in_group c g)
unfolding get_profile_names_in_group get
in_both c g name h =
    let r = collect_groups_iff (entries c.profiles) [] g name h in
    let s = Elem-sort_strings name (members_in g (entries c.profiles)) in
    (λ e. elim (r.0 e) [ inl a ↦ absurd a | inr b ↦ s.1 b ], λ e. r.1 (inr (s.0 e)))

none_there : NoEmpty []
unfolding get
none_there g e = cc

-- GetGroups lists a profile under a name that is not empty exactly where GetProfileNamesInGroup does,
-- and IsGroup holds of exactly the names under which some profile is listed.
pub get_groups_iff :
    (c : Config) (g name : Str)
    → g ≢ []
    → (Elem name (listed (get g (get_groups c))) ↔ Elem name (get_profile_names_in_group c g))
      × ((is_group c g ≡ true) ↔ ((x : Str) × Elem x (get_profile_names_in_group c g)))
unfolding get_groups is_group
get_groups_iff c g name h = (
  (
    λ e. (in_both c g name h).0 ((listed_sorted g name all).0 e),
    λ e. (listed_sorted g name all).1 ((in_both c g name h).1 e),
  ),
  (
    λ e. let r = present.0 (sym (is_some_sorted g all) ∙ e) in (r.0, (in_both c g r.0 h).0 r.1),
    λ r. is_some_sorted g all ∙ present.1 (r.0, (in_both c g r.0 h).1 r.1),
  ),
)
  where
    all : Dict (List Str)
    all = collect_groups (entries c.profiles) []

    no_empty : NoEmpty all
    no_empty = collect_groups-NoEmpty (entries c.profiles) [] none_there

    present : (is_some (get g all) ≡ true) ↔ ((x : Str) × Elem x (listed (get g all)))
    present = some_member g all no_empty
