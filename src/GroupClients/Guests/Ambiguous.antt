-- ===== src/GroupClients/Guests/Ambiguous.antt =====
-- What FindVMByIDInGroup answers.
use pvetui.Base.{
  ℕ, ◌≤◌, List, [], ◌∷◌, ◌++◌, Option, some, str, str_eq, Elem, filter, append_assoc, tail, ◌≡◌,
  ◌≢◌, ◌⊎◌, inl, inr, refl, sym, ap, ◌∙◌, arith, ℤ, itoa, itoa-bytes, itoa_injective,
  separated_injective,
}
use pvetui.GroupClients.Guests.{
  Guest, guest_key, plain_guest_key, all_guests, group_vms, has_id, FindResult, not_found, found,
  ambiguous, result_of, find_vm_by_id_in_group,
}
use pvetui.GroupClients.Guests.Deduplicated.{UniqueKeys}
use pvetui.GroupClients.Guests.Ordered.{
  group_vms-mem, matches_keep, matches_sound, matches_cover, matches-UniqueKeys,
}

-- A virtual machine or a container, on a node whose name has no bar.
abbrev pub IsRegular : Guest → Type 0
IsRegular v = ((v.kind ≡ str "qemu") ⊎ (v.kind ≡ str "lxc")) × (Elem b'|' v.node → ⊥)

abbrev pub SamePlace : Guest → Guest → Type 0
SamePlace v w = (v.kind ≡ w.kind) × (v.node ≡ w.node)

regular_key : (v : Guest) → IsRegular v → guest_key v ≡ plain_guest_key v
unfolding guest_key str_eq
regular_key v h = elim h.0 [ inl p ↦ rw p refl | inr p ↦ rw p refl ]

not_bar : (c : ℕ) → (c ≡ 45) ⊎ ((48 ≤ c) × (c ≤ 57)) → c ≡ 124 → ⊥
not_bar c (inl p) q = omega (arith, p, q)
not_bar c (inr r) q = omega (arith, r.1, q)

no_bar : (n : ℤ) → Elem b'|' (itoa n) → ⊥
no_bar n e = not_bar b'|' (itoa-bytes n b'|' e) refl

plain_parts :
    (v w : Guest)
    → IsRegular v
    → IsRegular w
    → plain_guest_key v ≡ plain_guest_key w
    → SamePlace v w × (v.id ≡ w.id)
plain_parts v w h k e =
    let (front, nodes) =
      separated_injective b'|' (v.kind ++ (b'|' ∷ itoa v.id)) (w.kind ++ (b'|' ∷ itoa w.id)) v.node
        w.node h.1 k.1
        (append_assoc v.kind (b'|' ∷ itoa v.id) (b'|' ∷ v.node)
          ∙ (ap tail (ap tail (ap tail e))
              ∙ sym (append_assoc w.kind (b'|' ∷ itoa w.id) (b'|' ∷ w.node)))) in
    let (kinds, ids) =
      separated_injective b'|' v.kind w.kind (itoa v.id) (itoa w.id) (no_bar v.id) (no_bar w.id)
        front in
    ((kinds, nodes), itoa_injective v.id w.id ids)

same_key :
    (v w : Guest)
    → IsRegular v
    → IsRegular w
    → SamePlace v w
    → v.id ≡ w.id
    → guest_key v ≡ guest_key w
same_key v w h k p q = regular_key v h ∙ ((rw (p.0, p.1, q) refl) ∙ sym (regular_key w k))

key_parts :
    (v w : Guest)
    → IsRegular v
    → IsRegular w
    → guest_key v ≡ guest_key w
    → SamePlace v w × (v.id ≡ w.id)
key_parts v w h k e = plain_parts v w h k (sym (regular_key v h) ∙ (e ∙ regular_key w k))

-- The guests that have the ID, as the search has them: `l` is its matches.
abbrev Matches : List (Option Guest) → ℤ → List Guest → Type 0
Matches guests vm_id l =
    ((v : Guest) → Elem v l → Elem (some v) guests × (v.id ≡ vm_id))
    × (((v : Guest)
          → Elem (some v) guests
          → v.id ≡ vm_id
          → (w : Guest) × Elem w l × (guest_key w ≡ guest_key v))
        × UniqueKeys l)

abbrev pub AllRegular : List (Option Guest) → Type 0
AllRegular guests = (v : Guest) → Elem (some v) guests → IsRegular v

-- No guest has the ID.
abbrev pub NoneFound : List (Option Guest) → ℤ → FindResult → Type 0
NoneFound guests vm_id r = ((v : Guest) → Elem (some v) guests → v.id ≢ vm_id) → r ≡ not_found vm_id

-- All guests with the ID are of one kind on nodes of one name.
abbrev pub OneFound : List (Option Guest) → ℤ → FindResult → Type 0
OneFound guests vm_id r =
    (v : Guest)
    → Elem (some v) guests
    → v.id ≡ vm_id
    → ((w : Guest) → Elem (some w) guests → w.id ≡ vm_id → SamePlace v w)
    → (w : Guest) × (r ≡ found w w.source_profile) × (Elem (some w) guests × (w.id ≡ vm_id))

-- Two guests with the ID differ in kind or in the name of the node.
abbrev pub IsAmbiguous : List (Option Guest) → ℤ → FindResult → Type 0
IsAmbiguous guests vm_id r =
    (v w : Guest)
    → Elem (some v) guests
    → Elem (some w) guests
    → v.id ≡ vm_id
    → w.id ≡ vm_id
    → (SamePlace v w → ⊥)
    → (ms : List Guest) × (r ≡ ambiguous vm_id ms)

none_found :
    (guests : List (Option Guest)) (vm_id : ℤ) (l : List Guest)
    → Matches guests vm_id l
    → NoneFound guests vm_id (result_of vm_id l)
none_found guests vm_id [] m h = refl
none_found guests vm_id (x ∷ l) m h = let r = m.0 x (inl refl) in absurd (h x r.0 r.1)

one_found :
    (guests : List (Option Guest)) (vm_id : ℤ) (l : List Guest)
    → AllRegular guests
    → Matches guests vm_id l
    → OneFound guests vm_id (result_of vm_id l)
one_found guests vm_id [] reg m v e p h = let (w, b, q) = m.1.0 v e p in absurd b
one_found guests vm_id (x ∷ []) reg m v e p h = (x, refl, m.0 x (inl refl))
one_found guests vm_id (x ∷ y ∷ l) reg m v e p h =
    let a = m.0 x (inl refl) in
    let b = m.0 y (inr (inl refl)) in
    let s = h x a.0 a.1 in
    let t = h y b.0 b.1 in
    absurd (
      m.1.1.0 y (inl refl)
        (same_key y x (reg y b.0) (reg x a.0) (sym t.0 ∙ s.0, sym t.1 ∙ s.1) (b.1 ∙ sym a.1)))

is_ambiguous :
    (guests : List (Option Guest)) (vm_id : ℤ) (l : List Guest)
    → AllRegular guests
    → Matches guests vm_id l
    → IsAmbiguous guests vm_id (result_of vm_id l)
is_ambiguous guests vm_id [] reg m v w e f p q d = let (u, b, r) = m.1.0 v e p in absurd b
is_ambiguous guests vm_id (x ∷ []) reg m v w e f p q d =
    absurd (d (key_parts v w (reg v e) (reg w f) (sym (to_first v e p) ∙ to_first w f q)).0)
  where
    to_first : (u : Guest) → Elem (some u) guests → u.id ≡ vm_id → guest_key x ≡ guest_key u
    to_first u g r = of_match (m.1.0 u g r)
      where
        of_match :
            (z : Guest) × Elem z (x ∷ []) × (guest_key z ≡ guest_key u) → guest_key x ≡ guest_key u
        of_match (z, inl same, k) = ap guest_key same ∙ k
        of_match (z, inr b, k) = absurd b
is_ambiguous guests vm_id (x ∷ y ∷ l) reg m v w e f p q d = (x ∷ y ∷ l, refl)

-- Where all guests are virtual machines or containers, on nodes whose names have no bar, looking for an ID
-- in a group answers: that there is none, where no guest has the ID; one of the guests with the ID and
-- its profile, where they are all of one kind on nodes of one name, even if their profiles differ; and
-- that it is ambiguous, where two of them differ in that.
pub find_vm_by_id_in_group_cases :
    (results : List (List (Option Guest))) (vm_id : ℤ)
    → AllRegular (all_guests results)
    → NoneFound (all_guests results) vm_id (find_vm_by_id_in_group results vm_id)
      × (OneFound (all_guests results) vm_id (find_vm_by_id_in_group results vm_id)
          × IsAmbiguous (all_guests results) vm_id (find_vm_by_id_in_group results vm_id))
unfolding find_vm_by_id_in_group
find_vm_by_id_in_group_cases results vm_id reg = (
  none_found (all_guests results) vm_id _ matched,
  (
    one_found (all_guests results) vm_id _ reg matched,
    is_ambiguous (all_guests results) vm_id _ reg matched,
  ),
)
  where
    covered :
        (v : Guest)
        → Elem (some v) (all_guests results)
        → v.id ≡ vm_id
        → (w : Guest) × Elem w (filter (has_id vm_id) (group_vms results))
          × (guest_key w ≡ guest_key v)
    covered v e p =
        let (w, m, k) = matches_cover results v e in
        let here = group_vms-mem results w m in
        let parts = key_parts w v (reg w here) (reg v e) k in
        (w, matches_keep results vm_id w m (parts.1 ∙ p), k)

    matched : Matches (all_guests results) vm_id (filter (has_id vm_id) (group_vms results))
    matched = (matches_sound results vm_id, (covered, matches-UniqueKeys results vm_id))
