-- ===== src/FileCache/Elements.antt =====
-- The recency list seen by keys instead of by pointers.
use pvetui.Base.{
  ℕ, suc, ◌+◌, ◌<◌, List, [], ◌∷◌, Option, none, some, Str, str_eq, str_eq_iff, length,
  if◌then◌else◌, ◌≡◌, refl, arith, inl, inr, Bool-cases, is_some, ap,
}
use pvetui.FileCache.{Element, find_ref, remove_ref, back}

unfoldable pub find_key : Str → List Element → Option Element
find_key k [] = none
find_key k (e ∷ es) = if str_eq e.key k then some e else find_key k es

unfoldable pub remove_key : Str → List Element → List Element
remove_key k [] = []
remove_key k (e ∷ es) = if str_eq e.key k then es else e ∷ remove_key k es

-- No key and no pointer stands twice in the list.
abbrev pub AllDistinct : List Element → Type 0
AllDistinct [] = Unit
AllDistinct (e ∷ es) = (find_key e.key es ≡ none) × (find_ref e.ref es ≡ none) × AllDistinct es

-- Every pointer is below the next one.
abbrev pub RefsBelow : ℕ → List Element → Type 0
RefsBelow n [] = Unit
RefsBelow n (e ∷ es) = (e.ref < n) × RefsBelow n es

pub find_key-named :
    (k : Str) (es : List Element) (e : Element) → find_key k es ≡ some e → e.key ≡ k
unfolding find_key
find_key-named k [] e h = cc
find_key-named k (x ∷ es) e h = ground (arith, find_key-named k es e, str_eq_iff x.key k)

-- The pointer of an element finds that element.
pub find_ref-find_key :
    (k : Str) (es : List Element) (e : Element)
    → AllDistinct es
    → find_key k es ≡ some e
    → find_ref e.ref es ≡ some e
unfolding find_key find_ref
find_ref-find_key k [] e d h = cc
find_ref-find_key k (x ∷ es) e d h = elim (Bool-cases (str_eq x.key k)) [
  | inl y ↦ ground arith
  | inr n ↦
      let later = find_ref-find_key k es e d.2 (rw n at h) in
      ground (arith, later, d.1, ap (λ r. find_ref r es))
]

pub remove_ref-remove_key :
    (k : Str) (es : List Element) (e : Element)
    → AllDistinct es
    → find_key k es ≡ some e
    → remove_ref e.ref es ≡ remove_key k es
unfolding find_key remove_ref remove_key
remove_ref-remove_key k [] e d h = cc
remove_ref-remove_key k (x ∷ es) e d h = elim (Bool-cases (str_eq x.key k)) [
  | inl y ↦ ground arith
  | inr n ↦
      let later = remove_ref-remove_key k es e d.2 (rw n at h) in
      let found = find_ref-find_key k es e d.2 (rw n at h) in
      ground (arith, later, found, d.1, ap (λ r. find_ref r es))
]

pub find_key-remove_key :
    (k j : Str) (es : List Element)
    → AllDistinct es
    → find_key j (remove_key k es) ≡ (if str_eq k j then none else find_key j es)
unfolding find_key remove_key
find_key-remove_key k j [] d = ground arith
find_key-remove_key k j (x ∷ es) d = ground (
  arith,
  find_key-remove_key k j es d.2,
  str_eq_iff x.key k,
  str_eq_iff x.key j,
  str_eq_iff k j,
  d.0,
)

pub find_ref-remove_key :
    (k : Str) (r : ℕ) (es : List Element)
    → find_ref r es ≡ none
    → find_ref r (remove_key k es) ≡ none
unfolding find_ref remove_key
find_ref-remove_key k r [] h = refl
find_ref-remove_key k r (x ∷ es) h = ground (arith, find_ref-remove_key k r es)

-- The pointer of a removed element is gone.
pub find_ref-removed :
    (k : Str) (es : List Element) (e : Element)
    → AllDistinct es
    → find_key k es ≡ some e
    → find_ref e.ref (remove_key k es) ≡ none
unfolding find_key find_ref remove_key
find_ref-removed k [] e d h = cc
find_ref-removed k (x ∷ es) e d h = elim (Bool-cases (str_eq x.key k)) [
  | inl y ↦ ground (arith, d.1)
  | inr n ↦
      let later = find_ref-removed k es e d.2 (rw n at h) in
      let found = find_ref-find_key k es e d.2 (rw n at h) in
      ground (arith, later, found, d.1, ap (λ r. find_ref r es))
]

pub remove_key-AllDistinct :
    (k : Str) (es : List Element) → AllDistinct es → AllDistinct (remove_key k es)
unfolding remove_key
remove_key-AllDistinct k [] d = tt
remove_key-AllDistinct k (x ∷ es) d = ground (
  arith,
  remove_key-AllDistinct k es d.2,
  find_key-remove_key k x.key es d.2,
  find_ref-remove_key k x.ref es d.1,
)

pub remove_key-RefsBelow :
    (k : Str) (n : ℕ) (es : List Element) → RefsBelow n es → RefsBelow n (remove_key k es)
unfolding remove_key
remove_key-RefsBelow k n [] b = tt
remove_key-RefsBelow k n (x ∷ es) b = ground (arith, remove_key-RefsBelow k n es b.1)

pub RefsBelow-suc : (n : ℕ) (es : List Element) → RefsBelow n es → RefsBelow (suc n) es
RefsBelow-suc n [] b = tt
RefsBelow-suc n (x ∷ es) b = (omega arith, RefsBelow-suc n es b.1)

pub find_ref-fresh : (n : ℕ) (es : List Element) → RefsBelow n es → find_ref n es ≡ none
unfolding find_ref
find_ref-fresh n [] b = refl
find_ref-fresh n (x ∷ es) b = ground (arith, find_ref-fresh n es b.1)

pub length-remove_key :
    (k : Str) (es : List Element)
    → length es
      ≡ (if is_some (find_key k es) then length (remove_key k es) + 1 else length (remove_key k es))
unfolding find_key remove_key
length-remove_key k [] = refl
length-remove_key k (x ∷ es) = ground (arith, length-remove_key k es)

pub find_key-RefsBelow :
    (k : Str) (n : ℕ) (es : List Element) (e : Element)
    → RefsBelow n es
    → find_key k es ≡ some e
    → e.ref < n
unfolding find_key
find_key-RefsBelow k n [] e b h = cc
find_key-RefsBelow k n (x ∷ es) e b h = ground (arith, find_key-RefsBelow k n es e b.1)

-- The last element of the list is found by its key.
pub find_key-back :
    (es : List Element) (e : Element)
    → AllDistinct es
    → back es ≡ some e
    → find_key e.key es ≡ some e
unfolding back find_key
find_key-back [] e d h = cc
find_key-back (x ∷ []) e d h = ground (arith, str_eq_iff x.key e.key)
find_key-back (x ∷ y ∷ es) e d h =
    let later = find_key-back (y ∷ es) e d.2 h in
    elim (Bool-cases (str_eq x.key e.key)) [
      | inl same ↦ absurd (clash ((str_eq_iff x.key e.key).0 same) d.0 later)
      | inr n ↦ rw n later
    ]
  where
    clash : x.key ≡ e.key → find_key x.key (y ∷ es) ≡ none → find_key e.key (y ∷ es) ≡ some e → ⊥
    clash p q r = cc
