-- ===== src/Ansible/Groups.antt =====
-- The groups that BuildInventory makes.
use pvetui.Base.{
  List, [], ◌∷◌, ◌++◌, Str, str_eq, str_eq_iff, Dict, get, put, get-put, Elem, Elem-append, ◌≡◌,
  ◌↔◌, ◌⊎◌, inl, inr, refl, sym, subst, append-nil, Bool-cases, if◌then◌else◌,
}
use pvetui.Ansible.{InventoryHost}
use pvetui.Ansible.Inventory.{hosts_of, add_to_groups, group_hosts}

-- The hosts of one group.
abbrev pub members : Str → Dict (List InventoryHost) → List InventoryHost
members g groups = hosts_of (get g groups)

mem_append_left : (h : InventoryHost) (xs ys : List InventoryHost) → Elem h xs → Elem h (xs ++ ys)
mem_append_left h [] ys e = absurd e
mem_append_left h (x ∷ xs) ys (inl p) = inl p
mem_append_left h (x ∷ xs) ys (inr e) = inr (mem_append_left h xs ys e)

mem_append_right : (h : InventoryHost) (xs ys : List InventoryHost) → Elem h ys → Elem h (xs ++ ys)
mem_append_right h [] ys e = e
mem_append_right h (x ∷ xs) ys e = inr (mem_append_right h xs ys e)

members-put :
    (host : InventoryHost) (g g' : Str) (groups : Dict (List InventoryHost))
    → members g (put g' (members g' groups ++ host ∷ []) groups)
      ≡ members g groups ++ (if str_eq g' g then host ∷ [] else [])
members-put host g g' groups = elim (Bool-cases (str_eq g' g)) [
  | inl y ↦ rw (get-put g' g (members g' groups ++ host ∷ []) groups, y, (str_eq_iff g' g).0 y) refl
  | inr n ↦ rw (get-put g' g (members g' groups ++ host ∷ []) groups, n, append-nil) refl
]

-- An append to one group adds its host to that group and changes no other.
mem_put :
    (h host : InventoryHost) (g g' : Str) (groups : Dict (List InventoryHost))
    → Elem h (members g (put g' (members g' groups ++ host ∷ []) groups))
      ↔ (Elem h (members g groups) ⊎ ((host ≡ h) × (g' ≡ g)))
mem_put h host g g' groups = rw (members-put host g g' groups) (there, back)
  where
    added : Elem h (if str_eq g' g then host ∷ [] else []) → (host ≡ h) × (g' ≡ g)
    added e = elim (Bool-cases (str_eq g' g)) [
      | inl y ↦ (elim (rw y at e) [ inl p ↦ p | inr b ↦ absurd b ], (str_eq_iff g' g).0 y)
      | inr n ↦ absurd (rw n at e)
    ]

    there :
        Elem h (members g groups ++ (if str_eq g' g then host ∷ [] else []))
        → Elem h (members g groups) ⊎ ((host ≡ h) × (g' ≡ g))
    there e = elim (Elem-append h (members g groups) _ e) [ inl l ↦ inl l | inr r ↦ inr (added r) ]

    back :
        Elem h (members g groups) ⊎ ((host ≡ h) × (g' ≡ g))
        → Elem h (members g groups ++ (if str_eq g' g then host ∷ [] else []))
    back (inl l) = mem_append_left h (members g groups) _ l
    back (inr (p, q)) = mem_append_right h (members g groups) _ (rw ((str_eq_iff g' g).1 q) (inl p))

mem_add_to_groups :
    (h host : InventoryHost) (g : Str) (gs : List Str) (groups : Dict (List InventoryHost))
    → Elem h (members g (add_to_groups host gs groups))
      ↔ (Elem h (members g groups) ⊎ ((host ≡ h) × Elem g gs))
unfolding add_to_groups
mem_add_to_groups h host g [] groups = (λ e. inl e, λ e. elim e [ inl l ↦ l | inr r ↦ absurd r.1 ])
mem_add_to_groups h host g (x ∷ gs) groups =
    let later = mem_add_to_groups h host g gs (put x (members x groups ++ host ∷ []) groups) in
    let now = mem_put h host g x groups in
    (
      λ e. elim (later.0 e) [
        | inl l ↦ elim (now.0 l) [ inl o ↦ inl o | inr (p, q) ↦ inr (p, inl q) ]
        | inr (p, q) ↦ inr (p, inr q)
      ],
      λ e. elim e [
        | inl o ↦ later.1 (inl (now.1 (inl o)))
        | inr (p, q) ↦ elim q [
          | inl same ↦ later.1 (inl (now.1 (inr (p, same))))
          | inr rest ↦ later.1 (inr (p, rest))
        ]
      ],
    )

mem_group_hosts :
    (h : InventoryHost) (g : Str) (hosts : List InventoryHost) (groups : Dict (List InventoryHost))
    → Elem h (members g (group_hosts hosts groups))
      ↔ (Elem h (members g groups) ⊎ (Elem h hosts × Elem g h.group_names))
unfolding group_hosts
mem_group_hosts h g [] groups = (λ e. inl e, λ e. elim e [ inl l ↦ l | inr r ↦ absurd r.0 ])
mem_group_hosts h g (x ∷ hosts) groups =
    let later = mem_group_hosts h g hosts (add_to_groups x x.group_names groups) in
    let now = mem_add_to_groups h x g x.group_names groups in
    (
      λ e. elim (later.0 e) [
        | inl l ↦ elim (now.0 l) [
          | inl o ↦ inl o
          | inr (p, q) ↦ inr (inl p, subst (λ y. Elem g y.group_names) p q)
        ]
        | inr (p, q) ↦ inr (inr p, q)
      ],
      λ e. elim e [
        | inl o ↦ later.1 (inl (now.1 (inl o)))
        | inr (m, q) ↦ elim m [
          | inl same ↦
              later.1 (inl (now.1 (inr (same, subst (λ y. Elem g y.group_names) (sym same) q))))
          | inr rest ↦ later.1 (inr (rest, q))
        ]
      ],
    )

-- The groups of an inventory hold what its hosts say: a host is in the group of a name exactly when it is
-- a host of the inventory and has that name among its groups.
pub Elem-group_hosts :
    (h : InventoryHost) (g : Str) (hosts : List InventoryHost)
    → Elem h (members g (group_hosts hosts [])) ↔ (Elem h hosts × Elem g h.group_names)
unfolding get
Elem-group_hosts h g hosts =
    let r = mem_group_hosts h g hosts [] in
    (λ e. elim (r.0 e) [ inl none_there ↦ absurd none_there | inr m ↦ m ], λ m. r.1 (inr m))
