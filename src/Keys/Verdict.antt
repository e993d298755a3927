-- ===== src/Keys/Verdict.antt =====
-- What ValidateKeyBindings accepts, said without its loop.
use pvetui.Base.{
  List, [], ◌∷◌, Option, none, some, Bool, true, false, not, ◌&&◌, Str, str_eq, str_eq_iff, Dict,
  get, put, get-put-none, map, Elem, All, if◌then◌else◌, ◌≡◌, ◌≢◌, ◌↔◌, ◌⊎◌, inl, inr, refl, sym,
  ◌∙◌, arith, Bool-cases, Option-cases,
}
use pvetui.Keys.{Tcell, Combination, is_reserved, canonical_id}
use pvetui.Keys.Parsing.{ParseError, parse}
use pvetui.Keys.Bindings.{
  BindingError, same_spec, not_seen, check_parsed, check_binding, go_on, check_bindings,
}

-- A specification that parses, and is that of the default binding where its keys are reserved.
abbrev pub IsAllowed : Tcell → Dict Str → Str → Str → ParseError ⊎ Combination → Type 0
IsAllowed t default_map name spec (inl e) = ⊥
IsAllowed t default_map name spec (inr c) =
    is_reserved t c ≡ true → same_spec spec (get name default_map) ≡ true

-- A binding that is empty or allowed.
abbrev pub IsFine : Tcell → Dict Str → Str × Str → Type 0
IsFine t default_map b = (b.1 ≡ []) ⊎ IsAllowed t default_map b.0 b.1 (parse t b.1)

abbrev pub add_parsed : ParseError ⊎ Combination → List Combination → List Combination
add_parsed (inl e) cs = cs
add_parsed (inr c) cs = c ∷ cs

-- The combinations of the bindings that are not empty.
unfoldable pub combinations : Tcell → Dict Str → List Combination
unfolding parse
combinations t [] = []
combinations t ((name, spec) ∷ bindings) =
    let rest = combinations t bindings in
    if str_eq spec [] then rest else add_parsed (parse t spec) rest

abbrev pub Unique : {A : Type 0} → List A → Type 0
Unique [] = Unit
Unique (x ∷ xs) = (Elem x xs → ⊥) × Unique xs

abbrev pub Free : Dict Str → List Str → Type 0
Free seen = All (λ id. get id seen ≡ none)

Free-put :
    (id name : Str) (seen : Dict Str) (ids : List Str)
    → Free (put id name seen) ids ↔ ((Elem id ids → ⊥) × Free seen ids)
Free-put id name seen [] = (λ h. (λ e. e, tt), λ h. tt)
Free-put id name seen (i ∷ ids) =
    let ih = Free-put id name seen ids in
    let one = get-put-none id i name seen in
    (
      λ h. (
        λ e. elim e [ inl p ↦ (one.0 h.0).0 (sym p) | inr m ↦ (ih.0 h.1).0 m ],
        ((one.0 h.0).1, (ih.0 h.1).1),
      ),
      λ h. (one.1 (λ p. h.0 (inl (sym p)), h.1.0), ih.1 (λ m. h.0 (inr m), h.1.1)),
    )

abbrev pub ids_of : Tcell → List Combination → List Str
ids_of t cs = map (canonical_id t) cs

not_some {ℓ} : {A : Type ℓ} (a : A) → some a ≡ none → ⊥
not_some a e = cc

allowed_of : (a b : Bool) → a && not b ≡ false → a ≡ true → b ≡ true
allowed_of a b h k = ground arith

of_allowed : (a b : Bool) → (a ≡ true → b ≡ true) → a && not b ≡ false
of_allowed true b h = rw (h refl) refl
of_allowed false b h = refl

-- One binding that is not empty, and the rest of the loop.
parsed_iff :
    (t : Tcell) (default_map seen : Dict Str) (name spec : Str) (A : Type 0) (cs : List Combination)
    (rest : Dict Str → Option BindingError) (r : ParseError ⊎ Combination)
    → spec ≢ []
    → ((s : Dict Str) → (rest s ≡ none) ↔ (A × (Unique (ids_of t cs) × Free s (ids_of t cs))))
    → (go_on (check_parsed t default_map seen name spec r) rest ≡ none) ↔ (
        (((spec ≡ []) ⊎ IsAllowed t default_map name spec r) × A)
        × (Unique (ids_of t (add_parsed r cs)) × Free seen (ids_of t (add_parsed r cs))))
unfolding check_parsed not_seen
parsed_iff t default_map seen name spec A cs rest (inl e) k ih =
    (λ h. absurd (not_some _ h), λ h. elim h.0.0 [ inl p ↦ absurd (k p) | inr b ↦ absurd b ])
parsed_iff t default_map seen name spec A cs rest (inr c) k ih = (there, back)
  where
    id : Str
    id = canonical_id t c

    refused : Bool
    refused = is_reserved t c && not (same_spec spec (get name default_map))

    later :
        (rest (put id name seen) ≡ none)
        ↔ (A × (Unique (ids_of t cs) × Free (put id name seen) (ids_of t cs)))
    later = ih (put id name seen)

    free :
        Free (put id name seen) (ids_of t cs)
        ↔ ((Elem id (ids_of t cs) → ⊥) × Free seen (ids_of t cs))
    free = Free-put id name seen (ids_of t cs)

    there :
        go_on (check_parsed t default_map seen name spec (inr c)) rest ≡ none
        → (((spec ≡ []) ⊎ IsAllowed t default_map name spec (inr c)) × A)
          × (Unique (ids_of t (c ∷ cs)) × Free seen (ids_of t (c ∷ cs)))
    there h = elim (Bool-cases refused) [
      | inl y ↦ absurd (not_some _ (rw y at h))
      | inr n ↦ elim (Option-cases (get id seen)) [
        | inr (o, e) ↦ absurd (not_some _ (rw (n, e) at h))
        | inl e ↦
            let r = later.0 (rw (n, e) at h) in
            let f = free.0 r.1.1 in ((inr (allowed_of _ _ n), r.0), ((f.0, r.1.0), (e, f.1)))
      ]
    ]

    back :
        (((spec ≡ []) ⊎ IsAllowed t default_map name spec (inr c)) × A)
          × (Unique (ids_of t (c ∷ cs)) × Free seen (ids_of t (c ∷ cs)))
        → go_on (check_parsed t default_map seen name spec (inr c)) rest ≡ none
    back h = elim h.0.0 [
      | inl p ↦ absurd (k p)
      | inr allowed ↦
          rw (of_allowed _ _ allowed, h.1.1.0)
            (later.1 (h.0.1, (h.1.0.1, free.1 (h.1.0.0, h.1.1.1))))
    ]

pub check_bindings_lem :
    (t : Tcell) (default_map : Dict Str) (bindings seen : Dict Str)
    → (check_bindings t default_map bindings seen ≡ none) ↔ (
        All (IsFine t default_map) bindings
        × (Unique (ids_of t (combinations t bindings))
            × Free seen (ids_of t (combinations t bindings))))
unfolding check_bindings check_binding combinations
check_bindings_lem t default_map [] seen = (λ h. (tt, (tt, tt)), λ h. refl)
check_bindings_lem t default_map ((name, spec) ∷ bindings) seen =
    elim (Bool-cases (str_eq spec [])) [
      | inl y ↦
          rw y (empty (check_bindings_lem t default_map bindings seen) ((str_eq_iff spec []).0 y))
      | inr n ↦ rw n (
          parsed_iff t default_map seen name spec (All (IsFine t default_map) bindings)
            (combinations t bindings) (check_bindings t default_map bindings) (parse t spec)
            (λ p. true_false (sym ((str_eq_iff spec []).1 p) ∙ n))
            (check_bindings_lem t default_map bindings))
    ]
  where
    true_false : true ≡ false → ⊥
    true_false e = cc

    empty :
        {P R S : Type 0}
        → P ↔ (R × S)
        → spec ≡ []
        → P ↔ ((IsFine t default_map (name, spec) × R) × S)
    empty f p = (λ h. ((inl p, (f.0 h).0), (f.0 h).1), λ h. f.1 (h.0.1, h.1))
