-- ===== src/Base/Text.antt =====
-- Go's `string`: a sequence of bytes. `str` reads an ASCII literal.
use Prim.Native.Nat.{ℕ}
use Prim.Native.Char.{code}
use Prim.Native.String.{String}
use mathlib.Core.Path.{◌≡◌, refl}
use mathlib.Core.Logic.{◌↔◌}
use mathlib.Core.Bool.{Bool, true, false, ◌&&◌}
use mathlib.Core.List.{List, [], ◌∷◌}
use mathlib.Core.Logic.{◌⊎◌, inl, inr}
use native.Mathlib.Omega.{arith}
use pvetui.Base.Tests.{ltb, ◌==◌, if◌then◌else◌, Bool-cases}
use pvetui.Base.Lists.{Elem}

abbrev pub Str : Type 0
Str = List ℕ

abbrev pub str : String → Str
str String.[] = []
str (String.◌∷◌ c s) = code c ∷ str s

-- a == b on strings
unfoldable pub str_eq : Str → Str → Bool
str_eq [] [] = true
str_eq [] (b ∷ bs) = false
str_eq (a ∷ as') [] = false
str_eq (a ∷ as') (b ∷ bs) = (a == b) && str_eq as' bs

pub str_eq_iff : (s t : Str) → (str_eq s t ≡ true) ↔ (s ≡ t)
unfolding str_eq
str_eq_iff [] [] = ground arith
str_eq_iff [] (b ∷ bs) = ground arith
str_eq_iff (a ∷ as') [] = ground arith
str_eq_iff (a ∷ as') (b ∷ bs) = ground (arith, str_eq_iff as' bs)

pub str_eq_refl : (s : Str) → str_eq s s ≡ true
str_eq_refl s = (str_eq_iff s s).1 refl

pub str_eq_sym : (s t : Str) → str_eq s t ≡ str_eq t s
str_eq_sym s t = ground (arith, str_eq_iff s t, str_eq_iff t s)

-- a < b on strings, by bytes
unfoldable pub str_lt : Str → Str → Bool
str_lt s [] = false
str_lt [] (b ∷ bs) = true
str_lt (a ∷ as') (b ∷ bs) =
    let rest = str_lt as' bs in if ltb a b then true else if a == b then rest else false

-- sort.Strings, as an insertion sort
abbrev insert_str : Str → List Str → List Str
insert_str s [] = s ∷ []
insert_str s (t ∷ ts) = let rest = insert_str s ts in if str_lt t s then t ∷ rest else s ∷ t ∷ ts

unfoldable pub sort_strings : List Str → List Str
sort_strings [] = []
sort_strings (s ∷ ss) = insert_str s (sort_strings ss)

insert_str_mem : (s t : Str) (ts : List Str) → (s ≡ t) ⊎ Elem t ts → Elem t (insert_str s ts)
insert_str_mem s t [] e = e
insert_str_mem s t (x ∷ ts) e = elim (Bool-cases (str_lt x s)) [
  | inl y ↦ rw y (later e (insert_str_mem s t ts))
  | inr n ↦ rw n e
]
  where
    later :
        (s ≡ t) ⊎ ((x ≡ t) ⊎ Elem t ts)
        → ((s ≡ t) ⊎ Elem t ts → Elem t (insert_str s ts))
        → (x ≡ t) ⊎ Elem t (insert_str s ts)
    later (inl p) rec = inr (rec (inl p))
    later (inr (inl p)) rec = inl p
    later (inr (inr p)) rec = inr (rec (inr p))

mem_insert_str : (s t : Str) (ts : List Str) → Elem t (insert_str s ts) → (s ≡ t) ⊎ Elem t ts
mem_insert_str s t [] e = e
mem_insert_str s t (x ∷ ts) e = elim (Bool-cases (str_lt x s)) [
  | inl y ↦ sooner (rw y at e) (mem_insert_str s t ts)
  | inr n ↦ rw n at e
]
  where
    sooner :
        (x ≡ t) ⊎ Elem t (insert_str s ts)
        → (Elem t (insert_str s ts) → (s ≡ t) ⊎ Elem t ts)
        → (s ≡ t) ⊎ ((x ≡ t) ⊎ Elem t ts)
    sooner (inl p) rec = inr (inl p)
    sooner (inr q) rec = elim (rec q) [ inl p ↦ inl p | inr p ↦ inr (inr p) ]

-- Sorting keeps the members, in both directions.
pub Elem-sort_strings : (t : Str) (ts : List Str) → Elem t (sort_strings ts) ↔ Elem t ts
unfolding sort_strings
Elem-sort_strings t [] = (λ e. e, λ e. e)
Elem-sort_strings t (x ∷ ts) = (
  λ e. elim (mem_insert_str x t (sort_strings ts) e) [
    | inl p ↦ inl p
    | inr p ↦ inr ((Elem-sort_strings t ts).0 p)
  ],
  λ e. insert_str_mem x t (sort_strings ts) (keep e (Elem-sort_strings t ts).1),
)
  where
    keep :
        (x ≡ t) ⊎ Elem t ts
        → (Elem t ts → Elem t (sort_strings ts))
        → (x ≡ t) ⊎ Elem t (sort_strings ts)
    keep (inl p) rec = inl p
    keep (inr p) rec = inr (rec p)

str_lt_asymm : (s t : Str) → str_lt s t ≡ true → str_lt t s ≡ false
unfolding str_lt
str_lt_asymm [] [] h = cc
str_lt_asymm [] (b ∷ bs) h = refl
str_lt_asymm (a ∷ as') [] h = cc
str_lt_asymm (a ∷ as') (b ∷ bs) h = ground (arith, str_lt_asymm as' bs)

pub str_lt_irrefl : (s : Str) → str_lt s s ≡ false
unfolding str_lt
str_lt_irrefl [] = refl
str_lt_irrefl (a ∷ s) = ground (arith, str_lt_irrefl s)

str_ge_trans : (r s t : Str) → str_lt r s ≡ false → str_lt s t ≡ false → str_lt r t ≡ false
unfolding str_lt
str_ge_trans r s [] h k = refl
str_ge_trans r [] (c ∷ cs) h k = cc
str_ge_trans [] (b ∷ bs) (c ∷ cs) h k = cc
str_ge_trans (a ∷ as') (b ∷ bs) (c ∷ cs) h k = ground (arith, str_ge_trans as' bs cs)

-- No later string is below an earlier one.
abbrev pub Sorted : List Str → Type 0
Sorted [] = Unit
Sorted (s ∷ ss) = ((t : Str) → Elem t ss → str_lt t s ≡ false) × Sorted ss

insert_str-Sorted : (s : Str) (ts : List Str) → Sorted ts → Sorted (insert_str s ts)
insert_str-Sorted s [] h = ((λ t e. absurd e), tt)
insert_str-Sorted s (x ∷ ts) h = elim (Bool-cases (str_lt x s)) [
  | inl y ↦ rw y (
    (λ t e. elim (mem_insert_str s t ts e) [
      | inl p ↦ rw (← p) (str_lt_asymm x s y)
      | inr p ↦ h.0 t p
    ]),
    insert_str-Sorted s ts h.1,
  )
  | inr n ↦
      rw n ((λ t e. elim e [ inl p ↦ rw (← p) n | inr p ↦ str_ge_trans t x s (h.0 t p) n ]), h)
]

pub sort_strings-Sorted : (ts : List Str) → Sorted (sort_strings ts)
unfolding sort_strings
sort_strings-Sorted [] = tt
sort_strings-Sorted (t ∷ ts) = insert_str-Sorted t (sort_strings ts) (sort_strings-Sorted ts)
