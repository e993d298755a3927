-- ===== src/Keys/Controls.antt =====
-- Keys that a terminal sends for Ctrl with a letter.
use pvetui.Base.{
  ℕ, ◌+◌, ◌-◌, ◌≤◌, ◌<◌, [], ◌∷◌, ◌++◌, none, some, Bool, true, false, str, leb, ◌==◌, ◌≡◌, inr,
  refl, sym, ap, ◌∙◌, arith, ==_iff,
}
use pvetui.Keys.{Tcell, Mods, Combination, shifted_digits, is_upper, with_ctrl}
use pvetui.Keys.Parsing.{parse, rune_key}
use pvetui.Keys.Events.{normalize_event, to_char, held_shift, plain_rune}
use pvetui.Keys.Typed.{IsCharacter, parse_ctrl}

-- The key of Ctrl with the letter of number `i` is in the range of such keys, and none of those that the
-- code treats apart.
pub record LetterApart (t : Tcell) (i : ℕ) : Type 0 where
  pub is_letter : i < 26
  pub in_range : t.key_ctrl_a + i ≤ t.key_ctrl_z
  pub not_backspace : (t.key_ctrl_a + i == t.key_ctrl_h) ≡ false
  pub not_ctrl_tab : (t.key_ctrl_a + i == t.key_ctrl_i) ≡ false
  pub not_enter : (t.key_ctrl_a + i == t.key_ctrl_m) ≡ false
  pub not_back_tab : (t.key_ctrl_a + i == t.key_backtab) ≡ false
  pub not_tab : (t.key_ctrl_a + i == t.key_tab) ≡ false
  pub not_rune : (t.key_ctrl_a + i == t.key_rune) ≡ false

abbrev pub sent : Tcell → ℕ → ℕ → Mods → Combination
sent t i r mods = record { key = t.key_ctrl_a + i; rune = r; mods = mods }

letter_plain : (i : ℕ) → i < 26 → (shifted_digits (b'a' + i) ≡ none) × (is_upper (b'a' + i) ≡ false)
unfolding shifted_digits is_upper
letter_plain i h = (ground (arith, h), ground (arith, h))

letter-IsCharacter : (i : ℕ) → i < 26 → IsCharacter (b'a' + i)
letter-IsCharacter i h = (ground (arith, h), ground (arith, h))

to_char_letter :
    (t : Tcell) (i : ℕ) → LetterApart t i → to_char t (t.key_ctrl_a + i) ≡ some (b'a' + i)
unfolding to_char
to_char_letter t i h = rw (h.not_backspace, h.not_ctrl_tab, h.not_enter, above, below, cancel) refl
  where
    above : leb t.key_ctrl_a (t.key_ctrl_a + i) ≡ true
    above = ground arith

    below : leb (t.key_ctrl_a + i) t.key_ctrl_z ≡ true
    below = ground (arith, h.in_range)

    cancel : (t.key_ctrl_a + i) - t.key_ctrl_a ≡ i
    cancel = omega arith

plain_letter :
    (t : Tcell) (i : ℕ) (mods : Mods)
    → i < 26
    → plain_rune t (record { key = t.key_rune; rune = b'a' + i; mods = mods })
      ≡ rune_key t (b'a' + i) mods
unfolding plain_rune rune_key
plain_letter t i mods h =
    let (e, n) = letter_plain i h in rw (e, n, (==_iff t.key_rune t.key_rune).1 refl) refl

held_letter :
    (t : Tcell) (i r : ℕ) (mods : Mods)
    → LetterApart t i
    → held_shift t (sent t i r mods) ≡ sent t i r mods
unfolding held_shift
held_letter t i r mods h = rw h.not_rune refl

normalize_sent :
    (t : Tcell) (i r : ℕ) (mods : Mods)
    → LetterApart t i
    → normalize_event t (sent t i r mods) ≡ rune_key t (b'a' + i) (with_ctrl mods)
unfolding normalize_event
normalize_sent t i r mods h =
    rw (h.not_ctrl_tab, h.not_back_tab, h.not_tab, held_letter t i r mods h, to_char_letter t i h)
      (plain_letter t i (with_ctrl mods) h.is_letter)

-- For each letter whose key with Ctrl has no meaning of its own, as those of Backspace, Tab and Enter have,
-- "Ctrl+" and the letter parses to the normal form of the control key that a terminal sends for it,
-- whatever rune the event carries, and whether or not it says that Ctrl is held.
pub parse-normalize_control :
    (t : Tcell) (i r : ℕ) (ctrl : Bool)
    → LetterApart t i
    → parse t (str "Ctrl+" ++ (b'a' + i) ∷ [])
      ≡ inr (
          normalize_event t
            (sent t i r (record { shift = false; ctrl = ctrl; alt = false; meta = false })))
parse-normalize_control t i r ctrl h =
    parse_ctrl t (b'a' + i) (letter-IsCharacter i h.is_letter)
    ∙ ap inr (sym (normalize_sent t i r _ h))
