-- ===== src/Keys/Tests.antt =====
-- Runs of the key bindings with concrete key numbers, and the theorems applied there.
use pvetui.Base.{
  ℕ, ◌+◌, ◌*◌, ◌≤◌, [], ◌∷◌, ◌++◌, none, some, Bool, true, false, str, str_eq, get, All, ◌≡◌, ◌↔◌,
  inl, inr, refl, arith,
}
use pvetui.Keys.{Tcell, Mods, mod_none, with_ctrl}
use pvetui.Keys.Parsing.{unknown_key, parse}
use pvetui.Keys.Events.{normalize_event, to_char, normalize_navigation_event}
use pvetui.Keys.Bindings.{default_key_bindings, key_bindings_to_map, validate_key_bindings}
use pvetui.Keys.Verdict.{IsFine, combinations, Unique}
use pvetui.Keys.Accepting.{validate_key_bindings_iff}
use pvetui.Keys.Typed.{RuneApart, typed, parse-normalize_event}
use pvetui.Keys.Controls.{LetterApart, sent, parse-normalize_control}

abbrev pub bit : Bool → ℕ
bit true = 1
bit false = 0

abbrev pub bits : Mods → ℕ
bits m = bit m.shift + (2 * bit m.ctrl + (4 * bit m.alt + 8 * bit m.meta))

abbrev pub terminal : Tcell
terminal = record {
  key_rune = 256;
  key_backtab = 275;
  key_tab = 9;
  key_enter = 13;
  key_esc = 27;
  key_up = 257;
  key_down = 258;
  key_left = 260;
  key_right = 259;
  key_backspace = 8;
  key_backspace2 = 127;
  key_f = λ n. 300 + n;
  key_ctrl_a = 65;
  key_ctrl_h = 72;
  key_ctrl_i = 73;
  key_ctrl_m = 77;
  key_ctrl_z = 90;
  key_ctrl_space = 64;
  key_ctrl_underscore = 95;
  key_ctrl_right_sq = 93;
  key_ctrl_backslash = 92;
  key_ctrl_carat = 94;
  mask = bits;
}

bit_le : (b : Bool) → bit b ≤ 1
bit_le true = omega arith
bit_le false = omega arith

bit_injective : (b c : Bool) → bit b ≡ bit c → b ≡ c
bit_injective b c e = ground arith

pub bits_injective : (m n : Mods) → bits m ≡ bits n → m ≡ n
bits_injective m n e = λ i. record { shift = s i; ctrl = c i; alt = a i; meta = w i }
  where
    s : m.shift ≡ n.shift
    s = bit_injective m.shift n.shift (
        omega (
          arith,
          e,
          bit_le m.shift,
          bit_le n.shift,
          bit_le m.ctrl,
          bit_le n.ctrl,
          bit_le m.alt,
          bit_le n.alt,
          bit_le m.meta,
          bit_le n.meta,
        ))

    c : m.ctrl ≡ n.ctrl
    c = bit_injective m.ctrl n.ctrl (
        omega (
          arith,
          e,
          bit_le m.shift,
          bit_le n.shift,
          bit_le m.ctrl,
          bit_le n.ctrl,
          bit_le m.alt,
          bit_le n.alt,
          bit_le m.meta,
          bit_le n.meta,
        ))

    a : m.alt ≡ n.alt
    a = bit_injective m.alt n.alt (
        omega (
          arith,
          e,
          bit_le m.shift,
          bit_le n.shift,
          bit_le m.ctrl,
          bit_le n.ctrl,
          bit_le m.alt,
          bit_le n.alt,
          bit_le m.meta,
          bit_le n.meta,
        ))

    w : m.meta ≡ n.meta
    w = bit_injective m.meta n.meta (
        omega (
          arith,
          e,
          bit_le m.shift,
          bit_le n.shift,
          bit_le m.ctrl,
          bit_le n.ctrl,
          bit_le m.alt,
          bit_le n.alt,
          bit_le m.meta,
          bit_le n.meta,
        ))

-- Ctrl+Shift+A and Ctrl+A are the same keys.
parse_upper : parse terminal (str "Control + A") ≡ parse terminal (str "ctrl+shift+a")
unfolding parse str_eq get
parse_upper = refl

function_five : parse terminal (str "F05") ≡ inr (record { key = 305; rune = 0; mods = mod_none })
unfolding parse str_eq
function_five = refl

-- The binding and the key that a terminal sends for it are not told to be the same.
carat_parsed :
    parse terminal (str "Ctrl+^")
    ≡ inr (record {
      key = 256;
      rune = b'6';
      mods = record { shift = true; ctrl = true; alt = false; meta = false };
    })
unfolding parse str_eq
carat_parsed = refl

carat_sent :
    normalize_event terminal (record { key = 94; rune = 0; mods = with_ctrl mod_none })
    ≡ record { key = 256; rune = b'6'; mods = with_ctrl mod_none }
unfolding normalize_event
carat_sent = refl

plus_unknown : parse terminal (str "+") ≡ inl (unknown_key [])
unfolding parse str_eq
plus_unknown = refl

defaults_pass : validate_key_bindings terminal default_key_bindings ≡ none
unfolding validate_key_bindings str_eq
defaults_pass = refl

shift_tab :
    normalize_navigation_event terminal (
      some (record {
        key = 9;
        rune = 0;
        mods = record { shift = true; ctrl = false; alt = false; meta = false };
      }))
    ≡ some (record { key = 275; rune = 0; mods = mod_none })
unfolding normalize_navigation_event
shift_tab = refl

terminal_rune : RuneApart terminal
unfolding to_char
terminal_rune = record { not_ctrl_tab = refl; not_back_tab = refl; not_tab = refl; no_char = refl }

terminal_letter : LetterApart terminal 6
terminal_letter = record {
  is_letter = omega arith;
  in_range = omega arith;
  not_backspace = refl;
  not_ctrl_tab = refl;
  not_enter = refl;
  not_back_tab = refl;
  not_tab = refl;
  not_rune = refl;
}

validate_key_bindings_iff_example : (validate_key_bindings terminal default_key_bindings ≡ none) ↔ (
    All
      (IsFine terminal (key_bindings_to_map default_key_bindings))
      (key_bindings_to_map default_key_bindings)
    × Unique (combinations terminal (key_bindings_to_map default_key_bindings)))
validate_key_bindings_iff_example =
    validate_key_bindings_iff terminal default_key_bindings bits_injective

parse-normalize_event_example :
    (parse terminal (b'A' ∷ []) ≡ inr (normalize_event terminal (typed terminal b'A' mod_none)))
    × (parse terminal (str "Ctrl+" ++ b'A' ∷ [])
        ≡ inr (normalize_event terminal (typed terminal b'A' (with_ctrl mod_none))))
parse-normalize_event_example = parse-normalize_event terminal b'A' terminal_rune (refl, refl)

parse-normalize_control_example :
    parse terminal (str "Ctrl+" ++ (b'a' + 6) ∷ [])
    ≡ inr (
        normalize_event terminal
          (sent terminal 6 0 (record { shift = false; ctrl = true; alt = false; meta = false })))
parse-normalize_control_example = parse-normalize_control terminal 6 0 true terminal_letter
