-- ===== src/Keys/Events.antt =====
-- ToChar, NormalizeEvent and NormalizeNavigationEvent of internal/keys/parse.go. A key event is the
-- Combination of its key, its rune and its modifiers.
use pvetui.Base.{
  ℕ, ◌+◌, ◌-◌, Option, none, some, Bool, not, ◌&&◌, ◌||◌, leb, ◌==◌, if◌then◌else◌, is_some,
  lower_byte,
}
use pvetui.Keys.{
  Mods, mod_none, Tcell, Combination, shifted_digits, is_upper, with_shift, without_shift,
  with_ctrl, only_shift, unshifted,
}

unfoldable pub to_char : Tcell → ℕ → Option ℕ
to_char t k =
    if k == t.key_ctrl_h || (k == t.key_ctrl_i || k == t.key_ctrl_m)
    then none
    else if leb t.key_ctrl_a k && leb k t.key_ctrl_z
    then some (b'a' + (k - t.key_ctrl_a))
    else if k == t.key_ctrl_space
    then some b' '
    else if k == t.key_ctrl_underscore
    then some b'_'
    else if k == t.key_ctrl_right_sq
    then some b']'
    else if k == t.key_ctrl_backslash
    then some 92
    else if k == t.key_ctrl_carat
    then some b'^'
    else none

abbrev pub ctrl_tab : Tcell → Combination → Combination
ctrl_tab t ev =
    if ev.key == t.key_ctrl_i
    then record { key = t.key_tab; rune = ev.rune; mods = with_ctrl ev.mods }
    else ev

abbrev pub is_shift_tab : Tcell → Combination → Bool
is_shift_tab t ev = ev.key == t.key_tab && (ev.mods.shift && only_shift ev.mods)

abbrev pub back_tab : Tcell → Combination → Combination
back_tab t ev =
    if ev.key == t.key_backtab
    then record { key = ev.key; rune = ev.rune; mods = without_shift ev.mods }
    else if is_shift_tab t ev
    then record { key = t.key_backtab; rune = ev.rune; mods = mod_none }
    else ev

unfoldable pub held_shift : Tcell → Combination → Combination
unfolding is_upper shifted_digits
held_shift t ev =
    if ev.key == t.key_rune && (is_upper ev.rune || is_some (shifted_digits ev.rune))
    then record { key = ev.key; rune = ev.rune; mods = with_shift ev.mods }
    else ev

abbrev pub as_rune : Tcell → Option ℕ → Combination → Combination
as_rune t none ev = ev
as_rune t (some r) ev = record { key = t.key_rune; rune = r; mods = with_ctrl ev.mods }

unfoldable pub plain_rune : Tcell → Combination → Combination
unfolding shifted_digits lower_byte
plain_rune t ev = record {
  key = ev.key;
  rune =
      if ev.key == t.key_rune then lower_byte (unshifted ev.rune (shifted_digits ev.rune)) else 0;
  mods = ev.mods;
}

unfoldable pub normalize_event : Tcell → Combination → Combination
unfolding to_char held_shift plain_rune
normalize_event t ev =
    let held = held_shift t (back_tab t (ctrl_tab t ev)) in
    plain_rune t (as_rune t (to_char t held.key) held)

abbrev is_unmodified : Mods → Bool
is_unmodified mods = not mods.shift && only_shift mods

unfoldable pub normalize_navigation_event : Tcell → Option Combination → Option Combination
normalize_navigation_event t none = none
normalize_navigation_event t (some ev) =
    if is_shift_tab t ev || (ev.key == t.key_backtab && not (is_unmodified ev.mods))
    then some (record { key = t.key_backtab; rune = 0; mods = mod_none })
    else some ev
