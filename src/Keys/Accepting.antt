-- ===== src/Keys/Accepting.antt =====
-- ValidateKeyBindings accepts what is fine and has no two bindings of the same keys.
use pvetui.Base.{
  List, [], ◌∷◌, none, Str, str_eq, Dict, get, Elem, All, ◌≡◌, ◌↔◌, ◌⊎◌, inl, inr, refl, ap,
  Bool-cases,
}
use pvetui.Keys.{Tcell, Mods, Combination, canonical_id}
use pvetui.Keys.Parsing.{ParseError, parse}
use pvetui.Keys.Bindings.{
  KeyBindings, default_key_bindings, key_bindings_to_map, validate_key_bindings,
}
use pvetui.Keys.Verdict.{IsFine, add_parsed, combinations, Unique, ids_of, Free, check_bindings_lem}
use pvetui.Keys.Canonical.{IsLower, parse-IsLower, canonical_id_injective}

add_parsed-IsLower :
    (t : Tcell) (spec : Str) (cs : List Combination) (r : ParseError ⊎ Combination)
    → parse t spec ≡ r
    → All (IsLower t) cs
    → All (IsLower t) (add_parsed r cs)
add_parsed-IsLower t spec cs (inl e) p h = h
add_parsed-IsLower t spec cs (inr c) p h = (parse-IsLower t spec c p, h)

combinations-IsLower : (t : Tcell) (bindings : Dict Str) → All (IsLower t) (combinations t bindings)
unfolding combinations
combinations-IsLower t [] = tt
combinations-IsLower t ((name, spec) ∷ bindings) = elim (Bool-cases (str_eq spec [])) [
  | inl y ↦ rw y (combinations-IsLower t bindings)
  | inr n ↦ rw n (add_parsed-IsLower t spec _ (parse t spec) refl (combinations-IsLower t bindings))
]

mem_map :
    (t : Tcell) (c : Combination) (cs : List Combination)
    → Elem c cs
    → Elem (canonical_id t c) (ids_of t cs)
mem_map t c [] e = absurd e
mem_map t c (d ∷ cs) (inl p) = inl (ap (canonical_id t) p)
mem_map t c (d ∷ cs) (inr e) = inr (mem_map t c cs e)

map_mem :
    (t : Tcell) (c : Combination) (cs : List Combination)
    → ((m n : Mods) → t.mask m ≡ t.mask n → m ≡ n)
    → IsLower t c
    → All (IsLower t) cs
    → Elem (canonical_id t c) (ids_of t cs)
    → Elem c cs
map_mem t c [] inj h k e = absurd e
map_mem t c (d ∷ cs) inj h k (inl p) = inl (canonical_id_injective t d c inj k.0 h p)
map_mem t c (d ∷ cs) inj h k (inr e) = inr (map_mem t c cs inj h k.1 e)

ids_of-Unique :
    (t : Tcell) (cs : List Combination)
    → ((m n : Mods) → t.mask m ≡ t.mask n → m ≡ n)
    → All (IsLower t) cs
    → Unique (ids_of t cs) ↔ Unique cs
ids_of-Unique t [] inj h = (λ u. tt, λ u. tt)
ids_of-Unique t (c ∷ cs) inj h =
    let ih = ids_of-Unique t cs inj h.1 in
    (
      λ u. (λ e. u.0 (mem_map t c cs e), ih.0 u.1),
      λ u. (λ e. u.0 (map_mem t c cs inj h.0 h.1 e), ih.1 u.1),
    )

empty-Free : (ids : List Str) → Free [] ids
unfolding get
empty-Free [] = tt
empty-Free (i ∷ ids) = (refl, empty-Free ids)

-- Where different modifiers have different masks, the key bindings are accepted exactly when each of them
-- is empty, or parses and does not stand for reserved keys unless it is the default of its action, and no
-- two of those that are not empty parse to the same keys, however they are written.
pub validate_key_bindings_iff :
    (t : Tcell) (kb : KeyBindings)
    → ((m n : Mods) → t.mask m ≡ t.mask n → m ≡ n)
    → (validate_key_bindings t kb ≡ none) ↔ (
        All (IsFine t (key_bindings_to_map default_key_bindings)) (key_bindings_to_map kb)
        × Unique (combinations t (key_bindings_to_map kb)))
unfolding validate_key_bindings
validate_key_bindings_iff t kb inj =
    let whole =
      check_bindings_lem t (key_bindings_to_map default_key_bindings) (key_bindings_to_map kb) [] in
    let same = ids_of-Unique t _ inj (combinations-IsLower t (key_bindings_to_map kb)) in
    (λ h. ((whole.0 h).0, same.0 (whole.0 h).1.0), λ h. whole.1 (h.0, (same.1 h.1, empty-Free _)))
