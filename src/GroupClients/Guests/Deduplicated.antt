-- ===== src/GroupClients/Guests/Deduplicated.antt =====
-- What deduplicateGroupVMs keeps.
use pvetui.Base.{
  List, [], ◌∷◌, ◌++◌, Option, none, some, Bool, true, false, Str, str_eq, str_eq_iff, str_eq_refl,
  if◌then◌else◌, is_some, append_assoc, Dict, get, put, get-put, get-put-none, Elem, All,
  All-append, ◌≡◌, ◌≢◌, ◌⊎◌, inl, inr, refl, sym, ap, ◌∙◌, subst, arith, Bool-cases, Option-cases,
  append-nil,
}
use pvetui.GroupClients.Guests.{
  Guest, guest_key, note_guests, entries_of, with_entry, deduplicate_group_vms,
}

-- The first guest of each key that a map does not have yet.
unfoldable pub firsts : List (Option Guest) → Dict Guest → List Guest
unfolding guest_key get put
firsts [] seen = []
firsts (none ∷ vms) seen = firsts vms seen
firsts (some vm ∷ vms) seen =
    let old = is_some (get (guest_key vm) seen) in
    let rest = firsts vms (if old then seen else put (guest_key vm) vm seen) in
    if old then rest else vm ∷ rest

abbrev Known : Dict Guest → List Str → Type 0
Known seen = All (λ k. is_some (get k seen) ≡ true)

-- A new key changes none of the entries that are there.
entries_of-put :
    (k : Str) (vm : Guest) (seen : Dict Guest) (order : List Str)
    → get k seen ≡ none
    → Known seen order
    → entries_of order (put k vm seen) ≡ entries_of order seen
unfolding entries_of
entries_of-put k vm seen [] n h = refl
entries_of-put k vm seen (j ∷ order) n h =
    rw (get-put k j vm seen, differs, entries_of-put k vm seen order n h.1) refl
  where
    differs : str_eq k j ≡ false
    differs = elim (Bool-cases (str_eq k j)) [
      | inl y ↦ absurd (apart ((str_eq_iff k j).0 y))
      | inr no_match ↦ no_match
    ]
      where
        apart : k ≡ j → ⊥
        apart p = ground (arith, n, h.0, ap (λ (x : Str). get x seen) p)

Known-put :
    (k : Str) (vm : Guest) (seen : Dict Guest) (order : List Str)
    → Known seen order
    → Known (put k vm seen) order
Known-put k vm seen [] h = tt
Known-put k vm seen (j ∷ order) h =
    (ground (arith, get-put k j vm seen, h.0), Known-put k vm seen order h.1)

entries_of-append :
    (order : List Str) (k : Str) (seen : Dict Guest)
    → entries_of (order ++ k ∷ []) seen ≡ entries_of order seen ++ with_entry (get k seen) []
unfolding entries_of
entries_of-append [] k seen = refl
entries_of-append (j ∷ order) k seen = elim (Option-cases (get j seen)) [
  | inl e ↦ rw e (entries_of-append order k seen)
  | inr (vm, e) ↦ rw e (ap (λ out. vm ∷ out) (entries_of-append order k seen))
]

-- One guest: its key is known, or the guest is noted.
note_known :
    (vm : Guest) (vms : List (Option Guest)) (seen : Dict Guest) (order : List Str)
    → is_some (get (guest_key vm) seen) ≡ true
    → note_guests (some vm ∷ vms) seen order ≡ note_guests vms seen order
unfolding note_guests
note_known vm vms seen order e =
    ap
      (λ (b : Bool).
        note_guests vms (if b then seen else put (guest_key vm) vm seen)
          (if b then order else order ++ guest_key vm ∷ []))
      e

note_new :
    (vm : Guest) (vms : List (Option Guest)) (seen : Dict Guest) (order : List Str)
    → is_some (get (guest_key vm) seen) ≡ false
    → note_guests (some vm ∷ vms) seen order
      ≡ note_guests vms (put (guest_key vm) vm seen) (order ++ guest_key vm ∷ [])
unfolding note_guests
note_new vm vms seen order e =
    ap
      (λ (b : Bool).
        note_guests vms (if b then seen else put (guest_key vm) vm seen)
          (if b then order else order ++ guest_key vm ∷ []))
      e

noted_entries : Dict Guest × List Str → List Guest
noted_entries r = entries_of r.1 r.0

-- The loop keeps the first guest of each key, in the order of the guests.
note_guests-firsts :
    (vms : List (Option Guest)) (seen : Dict Guest) (order : List Str)
    → Known seen order
    → noted_entries (note_guests vms seen order) ≡ entries_of order seen ++ firsts vms seen
unfolding note_guests firsts noted_entries entries_of
note_guests-firsts [] seen order h = sym (append-nil (entries_of order seen))
note_guests-firsts (none ∷ vms) seen order h = note_guests-firsts vms seen order h
note_guests-firsts (some vm ∷ vms) seen order h = elim (Option-cases (get (guest_key vm) seen)) [
  | inr (old, e) ↦
      ap noted_entries (note_known vm vms seen order (ap is_some e))
      ∙ (rw e (note_guests-firsts vms seen order h))
  | inl e ↦
      ap noted_entries (note_new vm vms seen order (ap is_some e))
      ∙ (rw e (
          note_guests-firsts vms (put (guest_key vm) vm seen) (order ++ guest_key vm ∷ []) (known e)
          ∙ (ap (λ (out : List Guest). out ++ firsts vms (put (guest_key vm) vm seen)) (extended e)
              ∙ append_assoc (entries_of order seen) (vm ∷ [])
                  (firsts vms (put (guest_key vm) vm seen)))))
]
  where
    held : get (guest_key vm) (put (guest_key vm) vm seen) ≡ some vm
    held = rw (get-put (guest_key vm) (guest_key vm) vm seen, str_eq_refl (guest_key vm)) refl

    known :
        get (guest_key vm) seen ≡ none
        → Known (put (guest_key vm) vm seen) (order ++ guest_key vm ∷ [])
    known e =
        All-append (λ k. is_some (get k (put (guest_key vm) vm seen)) ≡ true) order
          (guest_key vm ∷ []) (Known-put (guest_key vm) vm seen order h) (rw held refl, tt)

    extended :
        get (guest_key vm) seen ≡ none
        → entries_of (order ++ guest_key vm ∷ []) (put (guest_key vm) vm seen)
          ≡ entries_of order seen ++ vm ∷ []
    extended e =
        entries_of-append order (guest_key vm) (put (guest_key vm) vm seen)
        ∙ (rw (held, entries_of-put (guest_key vm) vm seen order e h) refl)

pub deduplicate_group_vms-firsts :
    (vms : List (Option Guest)) → deduplicate_group_vms vms ≡ firsts vms []
unfolding deduplicate_group_vms entries_of noted_entries
deduplicate_group_vms-firsts vms = note_guests-firsts vms [] [] tt

-- Each guest that is kept is one of the guests, and its key is new.
pub firsts-mem :
    (v : Guest) (vms : List (Option Guest)) (seen : Dict Guest)
    → Elem v (firsts vms seen)
    → Elem (some v) vms × (get (guest_key v) seen ≡ none)
unfolding firsts
firsts-mem v [] seen e = absurd e
firsts-mem v (none ∷ vms) seen e = let r = firsts-mem v vms seen e in (inr r.0, r.1)
firsts-mem v (some vm ∷ vms) seen e = elim (Option-cases (get (guest_key vm) seen)) [
  | inr (old, p) ↦ let r = firsts-mem v vms seen (rw p at e) in (inr r.0, r.1)
  | inl p ↦ kept p (firsts-mem v vms (put (guest_key vm) vm seen)) (rw p at e)
]
  where
    kept :
        get (guest_key vm) seen ≡ none
        → (Elem v (firsts vms (put (guest_key vm) vm seen))
            → Elem (some v) vms × (get (guest_key v) (put (guest_key vm) vm seen) ≡ none))
        → (vm ≡ v) ⊎ Elem v (firsts vms (put (guest_key vm) vm seen))
        → Elem (some v) (some vm ∷ vms) × (get (guest_key v) seen ≡ none)
    kept p later (inl q) =
        (inl (ap some q), subst (λ (x : Guest). get (guest_key x) seen ≡ none) q p)
    kept p later (inr m) =
        let r = later m in (inr r.0, ((get-put-none (guest_key vm) (guest_key v) vm seen).0 r.1).1)

-- For each guest with a new key there is one of that key that is kept.
pub firsts-covers :
    (v : Guest) (vms : List (Option Guest)) (seen : Dict Guest)
    → Elem (some v) vms
    → get (guest_key v) seen ≡ none
    → (w : Guest) × Elem w (firsts vms seen) × (guest_key w ≡ guest_key v)
unfolding firsts
firsts-covers v [] seen e n = absurd e
firsts-covers v (none ∷ vms) seen (inl p) n = absurd (none_some p)
  where
    none_some : none ≡ some v → ⊥
    none_some q = cc
firsts-covers v (none ∷ vms) seen (inr e) n = firsts-covers v vms seen e n
firsts-covers v (some vm ∷ vms) seen e n = elim (Bool-cases (str_eq (guest_key vm) (guest_key v))) [
  | inl y ↦ same ((str_eq_iff (guest_key vm) (guest_key v)).0 y)
  | inr d ↦
      other d (behind d e) (firsts-covers v vms seen)
        (firsts-covers v vms (put (guest_key vm) vm seen))
]
  where
    same :
        guest_key vm ≡ guest_key v
        → (w : Guest) × Elem w (firsts (some vm ∷ vms) seen) × (guest_key w ≡ guest_key v)
    same p = (vm, rw (rw (← p) at n) (inl refl), p)

    apart : str_eq (guest_key vm) (guest_key v) ≡ false → guest_key vm ≡ guest_key v → ⊥
    apart d p = true_false (sym ((str_eq_iff (guest_key vm) (guest_key v)).1 p) ∙ d)
      where
        true_false : true ≡ false → ⊥
        true_false q = cc

    behind :
        str_eq (guest_key vm) (guest_key v) ≡ false
        → Elem (some v) (some vm ∷ vms)
        → Elem (some v) vms
    behind d (inl p) = absurd (apart d (ap guest_key (same_guest p)))
      where
        same_guest : some vm ≡ some v → vm ≡ v
        same_guest q = cc
    behind d (inr m) = m

    other :
        str_eq (guest_key vm) (guest_key v) ≡ false
        → Elem (some v) vms
        → (Elem (some v) vms
            → get (guest_key v) seen ≡ none
            → (w : Guest) × Elem w (firsts vms seen) × (guest_key w ≡ guest_key v))
        → (Elem (some v) vms
            → get (guest_key v) (put (guest_key vm) vm seen) ≡ none
            → (w : Guest) × Elem w (firsts vms (put (guest_key vm) vm seen))
              × (guest_key w ≡ guest_key v))
        → (w : Guest) × Elem w (firsts (some vm ∷ vms) seen) × (guest_key w ≡ guest_key v)
    other d m now later = elim (Option-cases (get (guest_key vm) seen)) [
      | inr (old, p) ↦ rw p (now m n)
      | inl p ↦
          let (w, k, q) =
            later m ((get-put-none (guest_key vm) (guest_key v) vm seen).1 (apart d, n)) in
          rw p (w, inr k, q)
    ]

abbrev pub UniqueKeys : List Guest → Type 0
UniqueKeys [] = Unit
UniqueKeys (v ∷ vs) = ((w : Guest) → Elem w vs → guest_key w ≢ guest_key v) × UniqueKeys vs

pub firsts-UniqueKeys :
    (vms : List (Option Guest)) (seen : Dict Guest) → UniqueKeys (firsts vms seen)
unfolding firsts
firsts-UniqueKeys [] seen = tt
firsts-UniqueKeys (none ∷ vms) seen = firsts-UniqueKeys vms seen
firsts-UniqueKeys (some vm ∷ vms) seen = elim (Option-cases (get (guest_key vm) seen)) [
  | inr (old, p) ↦ rw p (firsts-UniqueKeys vms seen)
  | inl p ↦ rw p (
    λ w e q.
        ((get-put-none (guest_key vm) (guest_key w) vm seen).0
            (firsts-mem w vms (put (guest_key vm) vm seen) e).1).0
          (sym q),
    firsts-UniqueKeys vms (put (guest_key vm) vm seen),
  )
]
