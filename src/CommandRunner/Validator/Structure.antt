-- ===== src/CommandRunner/Validator/Structure.antt =====
-- What a command must look like to pass a template.
use pvetui.Base.{
  List, [], ◌∷◌, ◌++◌, none, some, true, Str, ◌≡◌, refl, arith, inl, inr, Option-cases, cut,
  cut-split, cut_finds, cut-append, has_prefix, strip_prefix, strip_prefix-append,
  strip_prefix-split, append_assoc, ◌∙◌, sym, ap, ◌↔◌,
}
use pvetui.CommandRunner.Validator.{
  match_parts, has_parts, split_template, matches_template_structure,
}

-- The static parts stand in the text in this order, with any text before, between and behind them.
pub data Ordered : List Str → Str → Type 0 where
  done : (s : Str) → Ordered [] s
  next :
      (part : Str) (parts : List Str) (skip rest s : Str)
      → s ≡ skip ++ (part ++ rest)
      → Ordered parts rest
      → Ordered (part ∷ parts) s

-- More text in front does no harm.
Ordered-after :
    {parts : List Str} {s : Str} (extra : Str) → Ordered parts s → Ordered parts (extra ++ s)
Ordered-after extra (done s) = done (extra ++ s)
Ordered-after extra (next part parts skip rest s e o) =
    next part parts (extra ++ skip) rest (extra ++ s)
      (ap (λ t. extra ++ t) e ∙ sym (append_assoc extra skip (part ++ rest))) o

pub match_parts-Ordered :
    (parts : List Str) (s : Str) → match_parts parts s ≡ true → Ordered parts s
unfolding match_parts
match_parts-Ordered [] s h = done s
match_parts-Ordered (part ∷ parts) s h = elim (Option-cases (cut s part)) [
  | inl e ↦ absurd (refused e h)
  | inr (rest, e) ↦
      let (skip, whole) = cut-split s part rest e in
      next part parts skip rest s whole (match_parts-Ordered parts rest (found rest e h))
]
  where
    refused : cut s part ≡ none → match_parts (part ∷ parts) s ≡ true → ⊥
    refused e k = ground arith

    found :
        (rest : Str)
        → cut s part ≡ some rest
        → match_parts (part ∷ parts) s ≡ true
        → match_parts parts rest ≡ true
    found rest e k = ground arith

-- Taking the leftmost occurrence of each part loses no match.
pub Ordered-match_parts :
    (parts : List Str) (s : Str) → Ordered parts s → match_parts parts s ≡ true
unfolding match_parts
Ordered-match_parts [] s o = refl
Ordered-match_parts (part ∷ parts) s (next _ _ skip rest _ e o) =
    let (extra, r', found, tail) = cut_finds skip part rest in
    rw (e, match_parts, found) (Ordered-match_parts parts r' (rw tail (Ordered-after extra o)))

-- The command begins with the first part, and the other parts follow in order.
pub data Fits : List Str → Str → Type 0 where
  fits :
      (part : Str) (parts : List Str) (rest s : Str)
      → s ≡ part ++ rest
      → Ordered parts rest
      → Fits (part ∷ parts) s

has_prefix-append : (part rest : Str) → has_prefix (part ++ rest) part ≡ true
unfolding has_prefix
has_prefix-append part rest = rw (strip_prefix-append part rest)

pub Fits-has_parts : (parts : List Str) (s : Str) → Fits parts s → has_parts parts s ≡ some true
Fits-has_parts _ _ (fits part parts rest s e o) =
    let whole = Ordered-match_parts (part ∷ parts) s (next part parts [] rest s e o) in
    let first : has_prefix s part ≡ true = rw e (has_prefix-append part rest) in rw (first, whole)

first_part : (part s : Str) → has_prefix s part ≡ true → (rest : Str) × (s ≡ part ++ rest)
unfolding has_prefix
first_part part s h = elim (Option-cases (strip_prefix part s)) [
  | inl e ↦ absurd (ground arith)
  | inr (rest, e) ↦ (rest, strip_prefix-split part s rest e)
]

-- Behind the first occurrence of the prefix itself stands all that follows it.
pub has_parts-Fits : (parts : List Str) (s : Str) → has_parts parts s ≡ some true → Fits parts s
has_parts-Fits [] s h = cc
has_parts-Fits (part ∷ parts) s h =
    let begins : has_prefix s part ≡ true = ground arith in
    let (rest, e) = first_part part s begins in
    let found : cut s part ≡ some rest = ap (λ t. cut t part) e ∙ cut-append part rest in
    let all_match : match_parts (part ∷ parts) s ≡ true = ground arith in
    fits part parts rest s e (match_parts-Ordered parts rest (behind rest found all_match))
  where
    behind :
        (rest : Str)
        → cut s part ≡ some rest
        → match_parts (part ∷ parts) s ≡ true
        → match_parts parts rest ≡ true
    behind rest e k = unfold match_parts in ground arith

-- A command passes a template exactly where it is the template's first static part, then any text with
-- the other static parts in their order; what follows the last part is free.
pub matches_template_structure_iff :
    (command template : Str)
    → (matches_template_structure command template ≡ some true)
      ↔ Fits (split_template template) command
unfolding matches_template_structure
matches_template_structure_iff command template = (
  has_parts-Fits (split_template template) command,
  Fits-has_parts (split_template template) command,
)

Ordered-append :
    {parts : List Str} {s : Str} (suffix : Str) → Ordered parts s → Ordered parts (s ++ suffix)
Ordered-append suffix (done s) = done (s ++ suffix)
Ordered-append suffix (next part parts skip rest s e o) =
    next part parts skip (rest ++ suffix) (s ++ suffix)
      (ap (λ t. t ++ suffix) e ∙ simp append_assoc) (Ordered-append suffix o)

Fits-append : {parts : List Str} {s : Str} (suffix : Str) → Fits parts s → Fits parts (s ++ suffix)
Fits-append suffix (fits part parts rest s e o) =
    fits part parts (rest ++ suffix) (s ++ suffix)
      (ap (λ t. t ++ suffix) e ∙ append_assoc part rest suffix) (Ordered-append suffix o)

-- Whatever passes a template passes with any text appended: the whitelist does not bound the end of a
-- templated command.
matches_template_structure-append :
    (command template suffix : Str)
    → matches_template_structure command template ≡ some true
    → matches_template_structure (command ++ suffix) template ≡ some true
matches_template_structure-append command template suffix h =
    (matches_template_structure_iff (command ++ suffix) template).1
      (Fits-append suffix ((matches_template_structure_iff command template).0 h))
