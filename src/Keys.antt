-- ===== src/Keys.antt =====
-- internal/keys/parse.go: key specifications and the keys that are reserved. The numbers of the keys and
-- of the modifier masks are those of the terminal library, the record Tcell. A text is a list of
-- characters; upper and lower case are those of ASCII.
pub mod Parsing
pub mod Events
pub mod Bindings
pub mod Verdict
pub mod Canonical
pub mod Accepting
pub mod Typed
pub mod Controls
pub mod Tests
use pvetui.Base.{
  ℕ, zero, suc, ◌+◌, ◌-◌, ◌*◌, List, [], ◌∷◌, ◌++◌, Option, none, some, Bool, true, false, not,
  ◌&&◌, ◌||◌, Str, str, str_eq, leb, ◌==◌, if◌then◌else◌, is_some, trim_space, to_lower, lower_byte,
  strip_prefix, ◌⊎◌, inl, inr, pos, itoa,
}

-- tcell.ModMask
pub record Mods : Type 0 where
  pub shift : Bool
  pub ctrl : Bool
  pub alt : Bool
  pub meta : Bool

abbrev pub mod_none : Mods
mod_none = record { shift = false; ctrl = false; alt = false; meta = false }

-- The constants of the library; `key_f n` is KeyF1 to KeyF12, and `mask` the number of a mask.
pub record Tcell : Type 0 where
  pub key_rune : ℕ
  pub key_backtab : ℕ
  pub key_tab : ℕ
  pub key_enter : ℕ
  pub key_esc : ℕ
  pub key_up : ℕ
  pub key_down : ℕ
  pub key_left : ℕ
  pub key_right : ℕ
  pub key_backspace : ℕ
  pub key_backspace2 : ℕ
  pub key_f : ℕ → ℕ
  pub key_ctrl_a : ℕ
  pub key_ctrl_h : ℕ
  pub key_ctrl_i : ℕ
  pub key_ctrl_m : ℕ
  pub key_ctrl_z : ℕ
  pub key_ctrl_space : ℕ
  pub key_ctrl_underscore : ℕ
  pub key_ctrl_right_sq : ℕ
  pub key_ctrl_backslash : ℕ
  pub key_ctrl_carat : ℕ
  pub mask : Mods → ℕ

-- A key, its rune and the modifiers, as Parse and NormalizeEvent return them.
pub record Combination : Type 0 where
  pub key : ℕ
  pub rune : ℕ
  pub mods : Mods

-- The digit under a shifted character.
unfoldable pub shifted_digits : ℕ → Option ℕ
shifted_digits c =
    if c == b'!'
    then some b'1'
    else if c == b'@'
    then some b'2'
    else if c == b'#'
    then some b'3'
    else if c == b'$'
    then some b'4'
    else if c == b'%'
    then some b'5'
    else if c == b'^'
    then some b'6'
    else if c == b'&'
    then some b'7'
    else if c == b'*'
    then some b'8'
    else if c == b'('
    then some b'9'
    else if c == b')'
    then some b'0'
    else none

unfoldable pub is_upper : ℕ → Bool
is_upper c = leb b'A' c && leb c b'Z'

abbrev pub with_shift : Mods → Mods
with_shift mods = record { shift = true; ctrl = mods.ctrl; alt = mods.alt; meta = mods.meta }

abbrev pub without_shift : Mods → Mods
without_shift mods = record { shift = false; ctrl = mods.ctrl; alt = mods.alt; meta = mods.meta }

abbrev pub with_ctrl : Mods → Mods
with_ctrl mods = record { shift = mods.shift; ctrl = true; alt = mods.alt; meta = mods.meta }

-- Whether nothing but perhaps Shift is held.
abbrev pub only_shift : Mods → Bool
only_shift mods = not (mods.ctrl || (mods.alt || mods.meta))

abbrev pub unshifted : ℕ → Option ℕ → ℕ
unshifted c none = c
unshifted c (some u) = u

-- fmt.Sprintf("%d:%d:%d", key, r, mod)
unfoldable pub canonical_id : Tcell → Combination → Str
unfolding lower_byte itoa
canonical_id t c =
    (itoa (pos c.key)
      ++ (b':' ∷ itoa (pos (if c.key == t.key_rune then lower_byte c.rune else c.rune))))
    ++ (b':' ∷ itoa (pos (t.mask c.mods)))

abbrev is_navigation : Tcell → ℕ → Bool
is_navigation t key =
    key == t.key_up
    || (key == t.key_down
        || (key == t.key_left
            || (key == t.key_right
                || (key == t.key_esc
                    || (key == t.key_enter
                        || (key == t.key_backspace
                            || (key == t.key_backspace2 || key == t.key_tab)))))))

abbrev is_vi_key : ℕ → Bool
is_vi_key r = r == b'h' || (r == b'j' || (r == b'k' || r == b'l'))

unfoldable pub is_reserved : Tcell → Combination → Bool
unfolding lower_byte
is_reserved t c =
    (not c.mods.shift
      && only_shift c.mods
      && (is_navigation t c.key || (c.key == t.key_rune && is_vi_key (lower_byte c.rune))))
    || (c.key == t.key_rune
        && (c.mods.ctrl
            && (not (c.mods.alt || c.mods.meta)
                && (lower_byte c.rune == b'c' || lower_byte c.rune == b'd'))))
