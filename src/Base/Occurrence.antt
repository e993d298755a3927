-- ===== src/Base/Occurrence.antt =====
-- `strings.Contains`, described without its loop.
use mathlib.Core.Path.{◌≡◌, ◌∙◌, refl}
use mathlib.Core.Logic.{◌↔◌, inl, inr}
use mathlib.Core.Bool.{true}
use mathlib.Core.Option.{none}
use mathlib.Core.List.{◌++◌, append_assoc}
use native.Mathlib.Omega.{arith}
use pvetui.Base.Tests.{is_some, Option-cases}
use pvetui.Base.Text.{Str}
use pvetui.Base.Search.{contains, cut, cut-split, cut_finds}

-- The part stands somewhere in the text.
pub record Occurs (part s : Str) : Type 0 where
  pub before : Str
  pub after : Str
  pub split : s ≡ before ++ (part ++ after)

pub contains_iff : (s part : Str) → (contains s part ≡ true) ↔ Occurs part s
unfolding contains
contains_iff s part = (
  λ h. elim (Option-cases (cut s part)) [
    | inl e ↦ absurd (missing e h)
    | inr (r, e) ↦
        let (skip, p) = cut-split s part r e in record { before = skip; after = r; split = p }
  ],
  found,
)
  where
    missing : cut s part ≡ none → is_some (cut s part) ≡ true → ⊥
    missing e h = ground arith

    found : Occurs part s → is_some (cut s part) ≡ true
    found o = let (extra, r, e, p) = cut_finds o.before part o.after in rw (o.split, e) refl

-- A part of a part is a part.
pub Occurs-trans : (p q s : Str) → Occurs p q → Occurs q s → Occurs p s
Occurs-trans p q s o o' = record {
  before = o'.before ++ o.before;
  after = o.after ++ o'.after;
  split = o'.split ∙ rw o.split (simp append_assoc);
}
