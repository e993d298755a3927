-- ===== src/Base/Search.antt =====
-- Go's `strings` functions on byte strings: HasPrefix, Contains, Index with the slice behind it,
-- ReplaceAll, TrimSpace and ToLower. The letters and spaces are those of ASCII.
use Prim.Native.Nat.{ℕ, zero, suc, ◌+◌, ◌-◌, ◌≤◌}
use mathlib.Core.Path.{◌≡◌, refl, ap, sym, ◌∙◌}
use mathlib.Core.Bool.{Bool, ◌&&◌, ◌||◌, true}
use mathlib.Core.Option.{Option, none, some}
use mathlib.Core.Logic.{inl, inr}
use mathlib.Core.List.{[], ◌∷◌, ◌++◌, append_assoc}
use native.Mathlib.Omega.{arith}
use pvetui.Base.Tests.{leb, ◌==◌, if◌then◌else◌, Option-cases, is_some, ==_iff}
use pvetui.Base.Lists.{length, length-append, tail}
use pvetui.Base.Text.{Str, str_eq}

-- What follows the prefix, where there is that prefix.
unfoldable pub strip_prefix : Str → Str → Option Str
strip_prefix [] s = some s
strip_prefix (p ∷ ps) [] = none
strip_prefix (p ∷ ps) (c ∷ s) = let rest = strip_prefix ps s in if p == c then rest else none

unfoldable pub has_prefix : Str → Str → Bool
unfolding strip_prefix
has_prefix s prefix = is_some (strip_prefix prefix s)

-- s[strings.Index(s, part)+len(part):], or none where the index is -1
unfoldable pub cut : Str → Str → Option Str
unfolding strip_prefix
cut [] part = strip_prefix part []
cut (c ∷ s) part =
    let later = cut s part in
    elim (strip_prefix part (c ∷ s)) [ none ↦ later | some rest ↦ some rest ]

unfoldable pub contains : Str → Str → Bool
unfolding cut
contains s part = is_some (cut s part)

replace_from : Str → Str → ℕ → Str → Str
unfolding has_prefix
replace_from old new n [] = []
replace_from old new (suc n) (c ∷ s) = replace_from old new n s
replace_from old new zero (c ∷ s) =
    let replaced = new ++ replace_from old new (length old - 1) s in
    let kept = c ∷ replace_from old new zero s in if has_prefix (c ∷ s) old then replaced else kept

-- strings.ReplaceAll for a text `old` that is not empty
unfoldable pub replace_all : Str → Str → Str → Str
unfolding replace_from
replace_all s old new = replace_from old new 0 s

unfoldable pub lower_byte : ℕ → ℕ
lower_byte c = if leb b'A' c && leb c b'Z' then c + 32 else c

unfoldable pub to_lower : Str → Str
unfolding lower_byte
to_lower [] = []
to_lower (c ∷ s) = lower_byte c ∷ to_lower s

abbrev pub is_space : ℕ → Bool
is_space c = c == 32 || (leb 9 c && leb c 13)

unfoldable pub trim_left : Str → Str
trim_left [] = []
trim_left (c ∷ s) = let rest = trim_left s in if is_space c then rest else c ∷ s

unfoldable pub trim_right : Str → Str
trim_right [] = []
trim_right (c ∷ s) =
    let rest = trim_right s in
    let gone = str_eq rest [] && is_space c in if gone then [] else c ∷ rest

unfoldable pub trim_space : Str → Str
unfolding trim_left trim_right
trim_space s = trim_right (trim_left s)

-- strings.EqualFold
unfoldable pub equal_fold : Str → Str → Bool
unfolding to_lower
equal_fold s t = str_eq (to_lower s) (to_lower t)

pub strip_prefix-append : (p r : Str) → strip_prefix p (p ++ r) ≡ some r
unfolding strip_prefix
strip_prefix-append [] r = refl
strip_prefix-append (c ∷ p) r = rw ((==_iff c c).1 refl) (strip_prefix-append p r)

pub strip_prefix-split : (p s r : Str) → strip_prefix p s ≡ some r → s ≡ p ++ r
unfolding strip_prefix
strip_prefix-split [] s r h = ground arith
strip_prefix-split (c ∷ p) [] r h = cc
strip_prefix-split (c ∷ p) (x ∷ s) r h = ground (arith, strip_prefix-split p s r)

-- The first occurrence: what stands before it, the part, and what is left.
pub cut-split : (s part r : Str) → cut s part ≡ some r → (skip : Str) × (s ≡ skip ++ (part ++ r))
unfolding cut
cut-split [] part r h = ([], strip_prefix-split part [] r h)
cut-split (c ∷ s) part r h = elim (Option-cases (strip_prefix part (c ∷ s))) [
  | inr (rest, e) ↦ ([], strip_prefix-split part (c ∷ s) r (e ∙ (ground arith)))
  | inl e ↦ let (skip, p) = cut-split s part r (ground arith) in (c ∷ skip, ap (◌∷◌ c) p)
]

suffix_split :
    (a rest pre r : Str)
    → a ++ rest ≡ pre ++ r
    → length a ≤ length pre
    → (extra : Str) × (rest ≡ extra ++ r)
suffix_split [] rest pre r e h = (pre, e)
suffix_split (x ∷ a) rest [] r e h = absurd (omega arith)
suffix_split (x ∷ a) rest (y ∷ pre) r e h = suffix_split a rest pre r (ap tail e) (omega arith)

-- An occurrence is found, and it is not behind any other.
pub cut_finds :
    (skip part r : Str)
    → (extra r' : Str) × (cut (skip ++ (part ++ r)) part ≡ some r') × (r' ≡ extra ++ r)
unfolding cut
cut_finds [] [] [] = ([], [], refl, refl)
cut_finds [] [] (c ∷ r) = ([], c ∷ r, refl, refl)
cut_finds [] (p ∷ part) r = ([], r, rw (cut, strip_prefix-append (p ∷ part) r), refl)
cut_finds (c ∷ skip) part r = elim (Option-cases (strip_prefix part (c ∷ skip ++ (part ++ r)))) [
  | inl e ↦
      let (extra, r', found, tail) = cut_finds skip part r in (extra, r', rw (e, cut) found, tail)
  | inr (rest, e) ↦
      let whole = sym (strip_prefix-split part (c ∷ skip ++ (part ++ r)) rest e) ∙ shift in
      let (extra, end) = suffix_split part rest (c ∷ skip ++ part) r whole longer in
      (extra, rest, rw (e, cut) refl, end)
]
  where
    shift : c ∷ skip ++ (part ++ r) ≡ (c ∷ skip ++ part) ++ r
    shift = sym (append_assoc (c ∷ skip) part r)

    longer : length part ≤ length (c ∷ skip ++ part)
    longer = omega (arith, length-append {0} (c ∷ skip) part)

-- A prefix is the first occurrence.
cut_at_front : (part r s : Str) → strip_prefix part s ≡ some r → cut s part ≡ some r
unfolding cut
cut_at_front part r [] h = h
cut_at_front part r (c ∷ s) h = rw (cut, h)

pub cut-append : (part r : Str) → cut (part ++ r) part ≡ some r
cut-append part r = cut_at_front part r (part ++ r) (strip_prefix-append part r)

pub has_prefix-split : (s p : Str) → has_prefix s p ≡ true → (r : Str) × (s ≡ p ++ r)
unfolding has_prefix
has_prefix-split s p h = elim (Option-cases (strip_prefix p s)) [
  | inr (r, e) ↦ (r, strip_prefix-split p s r e)
  | inl e ↦ let q = rw e at h in cc
]
