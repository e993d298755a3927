-- ===== src/Keys/Canonical.antt =====
-- What Parse returns is in its normal form, and CanonicalID tells such combinations apart.
use pvetui.Base.{
  ℕ, ◌≤◌, List, [], ◌∷◌, Option, none, some, Bool, true, false, Str, str, strip_prefix, ◌==◌,
  if◌then◌else◌, Elem, trim_space, lower_byte, pos, itoa, itoa-bytes, itoa_injective,
  separated_injective, ◌≡◌, ◌⊎◌, inl, inr, refl, sym, ◌∙◌, arith,
}
use pvetui.Keys.{Tcell, Mods, Combination, shifted_digits, unshifted, mod_none, canonical_id}
use pvetui.Keys.Parsing.{
  ParseError, parse, parse_parts, base_key, named_key, numbered_key, after_f, single_key, first_of,
  known, with_modifiers, function_key, atoi, rune_key, to_upper, split_plus,
}

-- The rune as CanonicalID prints it.
abbrev pub IsLower : Tcell → Combination → Type 0
IsLower t c = (if c.key == t.key_rune then lower_byte c.rune else c.rune) ≡ c.rune

unfoldable MaybeLower : Tcell → Option Combination → Type 0
MaybeLower t none = Unit
MaybeLower t (some c) = IsLower t c

unfoldable ReturnsLower : Tcell → ParseError ⊎ Combination → Type 0
ReturnsLower t (inl e) = Unit
ReturnsLower t (inr c) = IsLower t c

lower_zero : lower_byte 0 ≡ 0
unfolding lower_byte
lower_zero = refl

lower_twice : (c : ℕ) → lower_byte (lower_byte c) ≡ lower_byte c
unfolding lower_byte
lower_twice c = ground arith

zero_lower : (t : Tcell) (key : ℕ) → (if key == t.key_rune then lower_byte 0 else 0) ≡ 0
zero_lower t key = ground (arith, lower_zero)

plain_lower :
    (t : Tcell) (key : ℕ) (mods : Mods)
    → MaybeLower t (some (record { key = key; rune = 0; mods = mods }))
unfolding MaybeLower
plain_lower t key mods = zero_lower t key

nothing_lower : (t : Tcell) → MaybeLower t none
unfolding MaybeLower
nothing_lower t = tt

either :
    (t : Tcell) (b : Bool) (x y : Option Combination)
    → MaybeLower t x
    → MaybeLower t y
    → MaybeLower t (if b then x else y)
either t true x y h k = h
either t false x y h k = k

named_key_lower : (t : Tcell) (b : Str) (mods : Mods) → MaybeLower t (named_key t b mods)
unfolding named_key
named_key_lower t b mods = search (either, plain_lower, nothing_lower) depth 20

numbered_lower : (t : Tcell) (n : Option ℕ) (mods : Mods) → MaybeLower t (numbered_key t n mods)
numbered_lower t none mods = nothing_lower t
numbered_lower t (some n) mods = search (either, plain_lower, nothing_lower)

after_f_lower :
    (t : Tcell) (digits : Option Str) (mods : Mods) → MaybeLower t (after_f t digits mods)
after_f_lower t none mods = nothing_lower t
after_f_lower t (some digits) mods = numbered_lower t (atoi digits) mods

rune_key-IsLower : (t : Tcell) (c : ℕ) (mods : Mods) → IsLower t (rune_key t c mods)
unfolding rune_key
rune_key-IsLower t c mods = ground (arith, lower_twice (unshifted c (shifted_digits c)))

single_lower : (t : Tcell) (base : Str) (mods : Mods) → MaybeLower t (single_key t base mods)
unfolding MaybeLower
single_lower t [] mods = tt
single_lower t (c ∷ []) mods = rune_key-IsLower t c mods
single_lower t (c ∷ d ∷ s) mods = tt

first_lower :
    (t : Tcell) (x y : Option Combination)
    → MaybeLower t x
    → MaybeLower t y
    → MaybeLower t (first_of x y)
first_lower t none y h k = k
first_lower t (some c) y h k = h

known_lower :
    (t : Tcell) (base : Str) (x : Option Combination)
    → MaybeLower t x
    → ReturnsLower t (known base x)
unfolding MaybeLower ReturnsLower
known_lower t base none h = tt
known_lower t base (some c) h = h

base_key_lower : (t : Tcell) (base : Str) (mods : Mods) → ReturnsLower t (base_key t base mods)
unfolding base_key function_key
base_key_lower t base mods = known_lower t base _ (
    first_lower t _ _ (named_key_lower t (to_upper base) mods) (
      first_lower t _ _ (after_f_lower t (strip_prefix (str "F") (to_upper base)) mods)
        (single_lower t base mods)))

with_modifiers_lower :
    (t : Tcell) (p : Str) (m : Option Mods) (next : Mods → ParseError ⊎ Combination)
    → ((mods : Mods) → ReturnsLower t (next mods))
    → ReturnsLower t (with_modifiers p m next)
unfolding ReturnsLower
with_modifiers_lower t p none next h = tt
with_modifiers_lower t p (some mods) next h = h mods

parse_parts_lower :
    (t : Tcell) (parts : List Str) (mods : Mods) → ReturnsLower t (parse_parts t parts mods)
unfolding parse_parts ReturnsLower
parse_parts_lower t [] mods = tt
parse_parts_lower t (p ∷ []) mods = base_key_lower t (trim_space p) mods
parse_parts_lower t (p ∷ q ∷ parts) mods =
    with_modifiers_lower t p _ (parse_parts t (q ∷ parts)) (parse_parts_lower t (q ∷ parts))

parse_lower : (t : Tcell) (spec : Str) → ReturnsLower t (parse t spec)
unfolding parse ReturnsLower
parse_lower t [] = tt
parse_lower t (c ∷ s) = parse_parts_lower t (split_plus (c ∷ s)) mod_none

-- What Parse returns has a rune in lower case.
pub parse-IsLower : (t : Tcell) (spec : Str) (c : Combination) → parse t spec ≡ inr c → IsLower t c
unfolding ReturnsLower
parse-IsLower t spec c e = rw e at (parse_lower t spec)

not_colon : (c : ℕ) → (c ≡ 45) ⊎ ((48 ≤ c) × (c ≤ 57)) → c ≡ 58 → ⊥
not_colon c (inl p) q = omega (arith, p, q)
not_colon c (inr r) q = omega (arith, r.1, q)

no_colon : (n : ℕ) → Elem b':' (itoa (pos n)) → ⊥
no_colon n e = not_colon b':' (itoa-bytes (pos n) b':' e) refl

same_fields : (c d : Combination) → c.key ≡ d.key → c.rune ≡ d.rune → c.mods ≡ d.mods → c ≡ d
same_fields c d p q r = λ i. record { key = p i; rune = q i; mods = r i }

pub canonical_id_injective :
    (t : Tcell) (c d : Combination)
    → ((m n : Mods) → t.mask m ≡ t.mask n → m ≡ n)
    → IsLower t c
    → IsLower t d
    → canonical_id t c ≡ canonical_id t d
    → c ≡ d
unfolding canonical_id
canonical_id_injective t c d inj h k e =
    let (front, masks) =
      separated_injective b':' _ _ _ _ (no_colon (t.mask c.mods)) (no_colon (t.mask d.mods)) e in
    let (key, rune) =
      separated_injective b':' _ _ _ _ (no_colon (printed c)) (no_colon (printed d)) front in
    same_fields c d (of_text key) (sym h ∙ (of_text rune ∙ k)) (inj c.mods d.mods (of_text masks))
  where
    printed : Combination → ℕ
    printed x = if x.key == t.key_rune then lower_byte x.rune else x.rune

    of_text : {m n : ℕ} → itoa (pos m) ≡ itoa (pos n) → m ≡ n
    of_text {m} {n} q = same_number (itoa_injective (pos m) (pos n) q)
      where
        same_number : pos m ≡ pos n → m ≡ n
        same_number p = ground arith
