-- ===== src/UiState/Matching.antt =====
-- What a filter text matches: `strings.Contains` and the loop of the filters, described without them.
use pvetui.Base.{
  Occurs, List, [], ◌∷◌, ◌++◌, Option, none, some, Bool, true, Str, ◌≡◌, refl, ◌↔◌, inl, inr, arith,
  Elem, Bool-cases, to_lower,
}
use pvetui.UiState.{keep}

pub to_lower-append : (s t : Str) → to_lower (s ++ t) ≡ to_lower s ++ to_lower t
unfolding to_lower
to_lower-append [] t = refl
to_lower-append (c ∷ s) t = rw (to_lower-append s t) refl

pub to_lower-Occurs : (p s : Str) → Occurs p s → Occurs (to_lower p) (to_lower s)
to_lower-Occurs p s o = record {
  before = to_lower o.before;
  after = to_lower o.after;
  split = rw (o.split, to_lower-append o.before (p ++ o.after), to_lower-append p o.after) refl;
}

pub Occurs-nil : (part : Str) → Occurs part [] → part ≡ []
Occurs-nil [] o = refl
Occurs-nil (c ∷ part) o = absurd (nothing o.before o.split)
  where
    nothing : (before : Str) → [] ≡ before ++ (c ∷ part ++ o.after) → ⊥
    nothing [] e = cc
    nothing (x ∷ before) e = cc

module _ {A : Type 0} where
  -- The entries of a list that a filter leaves, in their order.
  pub data Sublist : List A → List A → Type 0 where
    done : Sublist [] []
    kept : (x : A) {xs ys : List A} → Sublist xs ys → Sublist (x ∷ xs) (x ∷ ys)
    left_out : (x : A) {xs ys : List A} → Sublist xs ys → Sublist xs (x ∷ ys)

  pub same-Sublist : (xs : List A) → Sublist xs xs
  same-Sublist [] = done
  same-Sublist (x ∷ xs) = kept x (same-Sublist xs)

module _ {A : Type 0} (p : A → Bool) where
  pub keep-Sublist : (xs : List (Option A)) → Sublist (keep p xs) xs
  unfolding keep
  keep-Sublist [] = done
  keep-Sublist (none ∷ xs) = left_out none (keep-Sublist xs)
  keep-Sublist (some x ∷ xs) = elim (Bool-cases (p x)) [
    | inl y ↦ rw y (kept (some x) (keep-Sublist xs))
    | inr n ↦ rw n (left_out (some x) (keep-Sublist xs))
  ]

  pub keep-Elem :
      (a : A) (xs : List (Option A)) → Elem (some a) (keep p xs) ↔ (Elem (some a) xs × (p a ≡ true))
  unfolding keep
  keep-Elem a [] = ground arith
  keep-Elem a (none ∷ xs) = ground (arith, keep-Elem a xs)
  keep-Elem a (some x ∷ xs) = ground (arith, keep-Elem a xs)

  pub keep-no_nil : (xs : List (Option A)) → Elem none (keep p xs) → ⊥
  unfolding keep
  keep-no_nil [] = λ e. e
  keep-no_nil (none ∷ xs) = keep-no_nil xs
  keep-no_nil (some x ∷ xs) = ground (arith, keep-no_nil xs)
