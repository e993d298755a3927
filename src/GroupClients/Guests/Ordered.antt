-- ===== src/GroupClients/Guests/Ordered.antt =====
-- The guests of GetGroupVMs: those that deduplicateGroupVMs keeps, in another order.
use pvetui.Base.{
  List, [], ◌∷◌, Option, some, Bool, Elem, get, filter, Elem-filter, filter-Elem, ◌≡◌, ◌≢◌, ◌↔◌,
  ◌⊎◌, inl, inr, refl, sym, ap, ◌∙◌, Bool-cases, ℤ, int_eq_iff,
}
use pvetui.GroupClients.Guests.{
  Guest, guest_key, guest_less, insert_guest, sort_guests, deduplicate_group_vms, all_guests,
  group_vms, has_id,
}
use pvetui.GroupClients.Guests.Deduplicated.{
  deduplicate_group_vms-firsts, firsts-mem, firsts-covers, firsts-UniqueKeys, UniqueKeys,
}

mem_insert : (v x : Guest) (vms : List Guest) → Elem v (insert_guest x vms) ↔ ((x ≡ v) ⊎ Elem v vms)
unfolding insert_guest
mem_insert v x [] = (λ e. e, λ e. e)
mem_insert v x (y ∷ vms) = elim (Bool-cases (guest_less y x)) [
  | inr n ↦ rw n (λ e. e, λ e. e)
  | inl y_less ↦
      let ih = mem_insert v x vms in
      rw y_less (
        λ e. elim e [
          | inl p ↦ inr (inl p)
          | inr m ↦ elim (ih.0 m) [ inl q ↦ inl q | inr r ↦ inr (inr r) ]
        ],
        λ e. elim e [
          | inl q ↦ inr (ih.1 (inl q))
          | inr m ↦ elim m [ inl p ↦ inl p | inr r ↦ inr (ih.1 (inr r)) ]
        ],
      )
]

mem_sort : (v : Guest) (vms : List Guest) → Elem v (sort_guests vms) ↔ Elem v vms
unfolding sort_guests
mem_sort v [] = (λ e. e, λ e. e)
mem_sort v (x ∷ vms) =
    let ih = mem_sort v vms in
    let one = mem_insert v x (sort_guests vms) in
    (
      λ e. elim (one.0 e) [ inl p ↦ inl p | inr m ↦ inr (ih.0 m) ],
      λ e. one.1 (elim e [ inl p ↦ inl p | inr m ↦ inr (ih.1 m) ]),
    )

insert_guest-UniqueKeys :
    (x : Guest) (vms : List Guest)
    → ((w : Guest) → Elem w vms → guest_key w ≢ guest_key x)
    → UniqueKeys vms
    → UniqueKeys (insert_guest x vms)
unfolding insert_guest
insert_guest-UniqueKeys x [] h u = (h, u)
insert_guest-UniqueKeys x (y ∷ vms) h u = elim (Bool-cases (guest_less y x)) [
  | inr n ↦ rw n (h, u)
  | inl y_less ↦ rw y_less (
    λ w e q. elim ((mem_insert w x vms).0 e) [
      | inl p ↦ h y (inl refl) (sym (ap guest_key p ∙ q))
      | inr m ↦ u.0 w m q
    ],
    insert_guest-UniqueKeys x vms (λ w m. h w (inr m)) u.1,
  )
]

sort_guests-UniqueKeys : (vms : List Guest) → UniqueKeys vms → UniqueKeys (sort_guests vms)
unfolding sort_guests
sort_guests-UniqueKeys [] u = u
sort_guests-UniqueKeys (x ∷ vms) u =
    insert_guest-UniqueKeys x (sort_guests vms) (λ w e. u.0 w ((mem_sort w vms).0 e))
      (sort_guests-UniqueKeys vms u.1)

filter-UniqueKeys :
    (p : Guest → Bool) (vms : List Guest) → UniqueKeys vms → UniqueKeys (filter p vms)
filter-UniqueKeys p [] u = u
filter-UniqueKeys p (x ∷ vms) u = elim (Bool-cases (p x)) [
  | inr n ↦ rw n (filter-UniqueKeys p vms u.1)
  | inl y ↦ rw y (λ w e. u.0 w (filter-Elem p w vms e).0, filter-UniqueKeys p vms u.1)
]

pub group_vms-mem :
    (results : List (List (Option Guest))) (v : Guest)
    → Elem v (group_vms results)
    → Elem (some v) (all_guests results)
unfolding group_vms
group_vms-mem results v e =
    let kept =
      rw (deduplicate_group_vms-firsts (all_guests results)) at
        ((mem_sort v (deduplicate_group_vms (all_guests results))).0 e) in
    (firsts-mem v (all_guests results) [] kept).0

-- The guests that FindVMByIDInGroup matches.
pub matches_sound :
    (results : List (List (Option Guest))) (vm_id : ℤ) (v : Guest)
    → Elem v (filter (has_id vm_id) (group_vms results))
    → Elem (some v) (all_guests results) × (v.id ≡ vm_id)
unfolding has_id
matches_sound results vm_id v e =
    let r = filter-Elem (has_id vm_id) v (group_vms results) e in
    (group_vms-mem results v r.0, (int_eq_iff v.id vm_id).0 r.1)

pub matches_keep :
    (results : List (List (Option Guest))) (vm_id : ℤ) (v : Guest)
    → Elem v (group_vms results)
    → v.id ≡ vm_id
    → Elem v (filter (has_id vm_id) (group_vms results))
unfolding has_id
matches_keep results vm_id v e p =
    Elem-filter (has_id vm_id) v (group_vms results) ((int_eq_iff v.id vm_id).1 p) e

pub matches_cover :
    (results : List (List (Option Guest))) (v : Guest)
    → Elem (some v) (all_guests results)
    → (w : Guest) × Elem w (group_vms results) × (guest_key w ≡ guest_key v)
unfolding group_vms get
matches_cover results v e =
    let (w, m, q) = firsts-covers v (all_guests results) [] e refl in
    (
      w,
      (mem_sort w (deduplicate_group_vms (all_guests results))).1
          (rw (deduplicate_group_vms-firsts (all_guests results)) m),
      q,
    )

pub matches-UniqueKeys :
    (results : List (List (Option Guest))) (vm_id : ℤ)
    → UniqueKeys (filter (has_id vm_id) (group_vms results))
unfolding group_vms
matches-UniqueKeys results vm_id = filter-UniqueKeys (has_id vm_id) (group_vms results) (
    sort_guests-UniqueKeys (deduplicate_group_vms (all_guests results)) (
      rw (deduplicate_group_vms-firsts (all_guests results))
        (firsts-UniqueKeys (all_guests results) [])))
