-- ===== src/Keys/Typed.antt =====
-- Parse and NormalizeEvent agree on characters and on Ctrl with a letter.
use pvetui.Base.{
  ℕ, [], ◌∷◌, ◌++◌, none, some, true, false, ◌||◌, Str, str, str_eq, strip_prefix, ◌==◌,
  if◌then◌else◌, is_some, is_space, trim_left, trim_right, trim_space, to_lower, ◌≡◌, inl, inr,
  refl, sym, ap, ◌∙◌, arith, Bool-cases, Option-cases, ==_iff,
}
use pvetui.Keys.{
  Tcell, Mods, mod_none, Combination, shifted_digits, is_upper, with_ctrl, with_shift,
}
use pvetui.Keys.Parsing.{
  parse, parse_parts, base_key, named_key, function_key, atoi, rune_key, upper_byte, to_upper,
  split_plus, add_modifier,
}
use pvetui.Keys.Events.{normalize_event, to_char, held_shift, plain_rune}

-- A character that a specification can name: neither the separator nor white space.
abbrev pub IsCharacter : ℕ → Type 0
IsCharacter c = (is_space c ≡ false) × ((c == b'+') ≡ false)

one_not_more : (x a b : ℕ) (s : Str) → str_eq (x ∷ []) (a ∷ b ∷ s) ≡ false
unfolding str_eq
one_not_more x a b s = ground arith

no_name : (t : Tcell) (x : ℕ) (mods : Mods) → named_key t (x ∷ []) mods ≡ none
unfolding named_key
no_name t x mods = simp one_not_more refl

after_f_none : (t : Tcell) (x : ℕ) (mods : Mods) → function_key t (x ∷ []) mods ≡ none
unfolding function_key strip_prefix atoi
after_f_none t x mods = elim (Bool-cases (70 == x)) [ inl y ↦ rw y refl | inr n ↦ rw n refl ]

base_character :
    (t : Tcell) (c : ℕ) (mods : Mods) → base_key t (c ∷ []) mods ≡ inr (rune_key t c mods)
unfolding base_key to_upper
base_character t c mods =
    rw (no_name t (upper_byte c) mods, after_f_none t (upper_byte c) mods) refl

trim_character : (c : ℕ) → is_space c ≡ false → trim_space (c ∷ []) ≡ c ∷ []
unfolding trim_space trim_left trim_right str_eq
trim_character c h = ground (arith, h)

parse_character :
    (t : Tcell) (c : ℕ) → IsCharacter c → parse t (c ∷ []) ≡ inr (rune_key t c mod_none)
unfolding parse parse_parts split_plus
parse_character t c h = rw (h.1, trim_character c h.0) (base_character t c mod_none)

ctrl_modifier :
    add_modifier (to_lower (trim_space (str "Ctrl"))) mod_none ≡ some (with_ctrl mod_none)
unfolding add_modifier to_lower trim_space str_eq
ctrl_modifier = refl

pub parse_ctrl :
    (t : Tcell) (c : ℕ)
    → IsCharacter c
    → parse t (str "Ctrl+" ++ c ∷ []) ≡ inr (rune_key t c (with_ctrl mod_none))
unfolding parse parse_parts split_plus
parse_ctrl t c h =
    rw (h.1, ctrl_modifier, trim_character c h.0) (base_character t c (with_ctrl mod_none))

-- The key of a character is none of the keys that NormalizeEvent treats apart.
pub record RuneApart (t : Tcell) : Type 0 where
  pub not_ctrl_tab : (t.key_rune == t.key_ctrl_i) ≡ false
  pub not_back_tab : (t.key_rune == t.key_backtab) ≡ false
  pub not_tab : (t.key_rune == t.key_tab) ≡ false
  pub no_char : to_char t t.key_rune ≡ none

abbrev pub typed : Tcell → ℕ → Mods → Combination
typed t c mods = record { key = t.key_rune; rune = c; mods = mods }

-- Which modifiers a character holds.
held_typed :
    (t : Tcell) (c : ℕ) (mods : Mods)
    → held_shift t (typed t c mods)
      ≡ typed t c (if is_upper c || is_some (shifted_digits c) then with_shift mods else mods)
unfolding held_shift
held_typed t c mods = elim (Bool-cases (is_upper c || is_some (shifted_digits c))) [
  | inl y ↦ rw (y, own) refl
  | inr n ↦ rw (n, own) refl
]
  where
    own : (t.key_rune == t.key_rune) ≡ true
    own = (==_iff t.key_rune t.key_rune).1 refl

plain_typed :
    (t : Tcell) (c : ℕ) (mods : Mods)
    → plain_rune t
        (typed t c (if is_upper c || is_some (shifted_digits c) then with_shift mods else mods))
      ≡ rune_key t c mods
unfolding plain_rune rune_key
plain_typed t c mods = elim (Option-cases (shifted_digits c)) [
  | inl e ↦ elim (Bool-cases (is_upper c)) [
    | inl y ↦ rw (e, y, own) refl
    | inr n ↦ rw (e, n, own) refl
  ]
  | inr (u, e) ↦ elim (Bool-cases (is_upper c)) [
    | inl y ↦ rw (e, y, own) refl
    | inr n ↦ rw (e, n, own) refl
  ]
]
  where
    own : (t.key_rune == t.key_rune) ≡ true
    own = (==_iff t.key_rune t.key_rune).1 refl

normalize_typed :
    (t : Tcell) (c : ℕ) (mods : Mods)
    → RuneApart t
    → normalize_event t (typed t c mods) ≡ rune_key t c mods
unfolding normalize_event
normalize_typed t c mods h =
    rw (h.not_ctrl_tab, h.not_back_tab, h.not_tab, held_typed t c mods, h.no_char)
      (plain_typed t c mods)

-- For a character that is neither "+" nor white space, the specification that is the character alone
-- parses to the normal form of the event of typing it, and with "Ctrl+" before it to that of typing it
-- with Ctrl held.
pub parse-normalize_event :
    (t : Tcell) (c : ℕ)
    → RuneApart t
    → IsCharacter c
    → (parse t (c ∷ []) ≡ inr (normalize_event t (typed t c mod_none)))
      × (parse t (str "Ctrl+" ++ c ∷ []) ≡ inr (normalize_event t (typed t c (with_ctrl mod_none))))
parse-normalize_event t c h k = (
  parse_character t c k ∙ ap inr (sym (normalize_typed t c mod_none h)),
  parse_ctrl t c k ∙ ap inr (sym (normalize_typed t c (with_ctrl mod_none) h)),
)
