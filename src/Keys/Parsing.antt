-- ===== src/Keys/Parsing.antt =====
-- Parse of internal/keys/parse.go: the combination that a key specification stands for, or an error.
use pvetui.Base.{
  ℕ, ◌+◌, ◌-◌, ◌*◌, List, [], ◌∷◌, Option, none, some, Bool, true, ◌&&◌, ◌||◌, Str, str, str_eq,
  leb, ◌==◌, if◌then◌else◌, is_some, trim_space, to_lower, lower_byte, strip_prefix, ◌⊎◌, inl, inr,
}
use pvetui.Keys.{
  Mods, mod_none, Tcell, Combination, shifted_digits, is_upper, with_shift, without_shift,
  only_shift, unshifted,
}

pub data ParseError : Type 0 where
  empty_specification : ParseError
  unknown_modifier : Str → ParseError
  unknown_key : Str → ParseError

unfoldable pub upper_byte : ℕ → ℕ
upper_byte c = if leb b'a' c && leb c b'z' then c - 32 else c

unfoldable pub to_upper : Str → Str
unfolding upper_byte
to_upper [] = []
to_upper (c ∷ s) = upper_byte c ∷ to_upper s

abbrev onto_first : ℕ → List Str → List Str
onto_first c [] = (c ∷ []) ∷ []
onto_first c (p ∷ ps) = (c ∷ p) ∷ ps

-- strings.Split(spec, "+")
unfoldable pub split_plus : Str → List Str
split_plus [] = [] ∷ []
split_plus (c ∷ s) = let rest = split_plus s in if c == b'+' then [] ∷ rest else onto_first c rest

abbrev named : Str → Str → Str → Bool
named s x y = str_eq s x || str_eq s y

-- What one segment before the last adds to the modifiers.
unfoldable pub add_modifier : Str → Mods → Option Mods
add_modifier p mods =
    if named p (str "ctrl") (str "control")
    then some (record { shift = mods.shift; ctrl = true; alt = mods.alt; meta = mods.meta })
    else if named p (str "alt") (str "opt")
    then some (record { shift = mods.shift; ctrl = mods.ctrl; alt = true; meta = mods.meta })
    else if str_eq p (str "shift")
    then some (record { shift = true; ctrl = mods.ctrl; alt = mods.alt; meta = mods.meta })
    else if named p (str "meta") (str "win")
        || (named p (str "windows") (str "cmd") || str_eq p (str "super"))
    then some (record { shift = mods.shift; ctrl = mods.ctrl; alt = mods.alt; meta = true })
    else if str_eq p []
    then some mods
    else none

abbrev plain_key : ℕ → Mods → Option Combination
plain_key key mods = some (record { key = key; rune = 0; mods = mods })

unfoldable pub named_key : Tcell → Str → Mods → Option Combination
named_key t b mods =
    if str_eq b (str "BACKTAB")
    then plain_key t.key_backtab (without_shift mods)
    else if str_eq b (str "TAB")
    then (if mods.shift && only_shift mods
        then plain_key t.key_backtab mod_none
        else plain_key t.key_tab mods)
    else if named b (str "ENTER") (str "RETURN")
    then plain_key t.key_enter mods
    else if named b (str "ESC") (str "ESCAPE")
    then plain_key t.key_esc mods
    else if str_eq b (str "UP")
    then plain_key t.key_up mods
    else if str_eq b (str "DOWN")
    then plain_key t.key_down mods
    else if str_eq b (str "LEFT")
    then plain_key t.key_left mods
    else if str_eq b (str "RIGHT")
    then plain_key t.key_right mods
    else none

-- strconv.Atoi of a text without a sign, after the digits that stand before it.
unfoldable pub digits_value : ℕ → Str → Option ℕ
digits_value n [] = some n
digits_value n (c ∷ s) =
    let rest = digits_value (n * 10 + (c - 48)) s in if leb 48 c && leb c 57 then rest else none

-- A number with a sign or one that is too large is not among those of the keys.
unfoldable pub atoi : Str → Option ℕ
unfolding digits_value
atoi [] = none
atoi (c ∷ s) = digits_value 0 (c ∷ s)

abbrev pub numbered_key : Tcell → Option ℕ → Mods → Option Combination
numbered_key t none mods = none
numbered_key t (some n) mods = if leb 1 n && leb n 12 then plain_key (t.key_f n) mods else none

abbrev pub after_f : Tcell → Option Str → Mods → Option Combination
after_f t none mods = none
after_f t (some digits) mods = numbered_key t (atoi digits) mods

unfoldable pub function_key : Tcell → Str → Mods → Option Combination
unfolding atoi strip_prefix
function_key t b mods = after_f t (strip_prefix (str "F") b) mods

-- A rune with its modifiers: a shifted digit or an upper case letter holds Shift.
unfoldable pub rune_key : Tcell → ℕ → Mods → Combination
unfolding shifted_digits is_upper lower_byte
rune_key t c mods =
    let r = unshifted c (shifted_digits c) in
    record {
      key = t.key_rune;
      rune = lower_byte r;
      mods = if is_some (shifted_digits c) || is_upper r then with_shift mods else mods;
    }

abbrev pub single_key : Tcell → Str → Mods → Option Combination
single_key t [] mods = none
single_key t (c ∷ []) mods = some (rune_key t c mods)
single_key t (c ∷ d ∷ s) mods = none

abbrev pub first_of : Option Combination → Option Combination → Option Combination
first_of none other = other
first_of (some c) other = some c

abbrev pub known : Str → Option Combination → ParseError ⊎ Combination
known base none = inl (unknown_key base)
known base (some c) = inr c

unfoldable pub base_key : Tcell → Str → Mods → ParseError ⊎ Combination
unfolding named_key function_key rune_key to_upper
base_key t base mods = known base (
    first_of (named_key t (to_upper base) mods)
      (first_of (function_key t (to_upper base) mods) (single_key t base mods)))

abbrev pub with_modifiers :
    Str → Option Mods → (Mods → ParseError ⊎ Combination) → ParseError ⊎ Combination
with_modifiers p none next = inl (unknown_modifier p)
with_modifiers p (some mods) next = next mods

unfoldable pub parse_parts : Tcell → List Str → Mods → ParseError ⊎ Combination
unfolding base_key add_modifier trim_space to_lower
parse_parts t [] mods = inl (unknown_key [])
parse_parts t (p ∷ []) mods = base_key t (trim_space p) mods
parse_parts t (p ∷ q ∷ parts) mods =
    with_modifiers p (add_modifier (to_lower (trim_space p)) mods) (parse_parts t (q ∷ parts))

unfoldable pub parse : Tcell → Str → ParseError ⊎ Combination
unfolding parse_parts split_plus
parse t [] = inl empty_specification
parse t (c ∷ s) = parse_parts t (split_plus (c ∷ s)) mod_none
