-- ===== src/Base/Lists.antt =====
-- Lists measured by native numbers, and predicates on them by recursion.
use Prim.Native.Nat.{ℕ, zero, suc, ◌+◌, ◌≤◌}
use mathlib.Core.Logic.{◌⊎◌, inl, inr}
use mathlib.Core.Path.{◌≡◌}
use mathlib.Core.Bool.{Bool, true}
use mathlib.Core.Option.{Option, none, some}
use mathlib.Core.List.{List, [], ◌∷◌, ◌++◌}
use native.Mathlib.Omega.{arith}
use pvetui.Base.Tests.{if◌then◌else◌, Bool-cases}

module _ {ℓ} {A : Type ℓ} where
  abbrev pub length : List A → ℕ
  length [] = 0
  length (x ∷ xs) = suc (length xs)

  abbrev pub head? : List A → Option A
  head? [] = none
  head? (x ∷ xs) = some x

  -- xs[1:], with the empty list for an empty one.
  abbrev pub tail : List A → List A
  tail [] = []
  tail (x ∷ xs) = xs

  abbrev pub take : ℕ → List A → List A
  take zero xs = []
  take (suc n) [] = []
  take (suc n) (x ∷ xs) = x ∷ take n xs

  pub length-take-le : (n : ℕ) (xs : List A) → length (take n xs) ≤ n
  length-take-le zero xs = omega arith
  length-take-le (suc n) [] = omega arith
  length-take-le (suc n) (x ∷ xs) = omega (arith, length-take-le n xs)

  pub length-append : (xs ys : List A) → length (xs ++ ys) ≡ length xs + length ys
  length-append [] ys = omega arith
  length-append (x ∷ xs) ys = omega (arith, length-append xs ys)

  -- The entries that pass a Boolean test, in order.
  abbrev pub filter : (A → Bool) → List A → List A
  filter p [] = []
  filter p (x ∷ xs) = let rest = filter p xs in if p x then x ∷ rest else rest

  pub length-filter-le : (p : A → Bool) (xs : List A) → length (filter p xs) ≤ length xs
  length-filter-le p [] = omega arith
  length-filter-le p (x ∷ xs) = ground (arith, length-filter-le p xs)

module _ {ℓ κ} {A : Type ℓ} where
  abbrev pub All : (A → Type κ) → List A → Type κ
  All P [] = Unit
  All P (x ∷ xs) = P x × All P xs

  pub All-append : (P : A → Type κ) (xs ys : List A) → All P xs → All P ys → All P (xs ++ ys)
  All-append P [] ys h k = k
  All-append P (x ∷ xs) ys h k = (h.0, All-append P xs ys h.1 k)

module _ {A : Type 0} where
  -- Membership as a recursive type, which the tactics take apart.
  abbrev pub Elem : A → List A → Type 0
  Elem a [] = ⊥
  Elem a (x ∷ xs) = (x ≡ a) ⊎ Elem a xs

  pub Elem-filter :
      (p : A → Bool) (a : A) (xs : List A) → p a ≡ true → Elem a xs → Elem a (filter p xs)
  Elem-filter p a [] h e = e
  Elem-filter p a (x ∷ xs) h (inl e) = ground arith
  Elem-filter p a (x ∷ xs) h (inr e) = ground (arith, Elem-filter p a xs h e)

  pub filter-Elem :
      (p : A → Bool) (a : A) (xs : List A) → Elem a (filter p xs) → Elem a xs × (p a ≡ true)
  filter-Elem p a [] e = absurd e
  filter-Elem p a (x ∷ xs) e = elim (Bool-cases (p x)) [
    | inr n ↦ let r = filter-Elem p a xs (rw n at e) in (inr (r.0), r.1)
    | inl y ↦ elim (from_cons y) [
      | inl e' ↦ (inl e', rw (← e') y)
      | inr e' ↦ let r = filter-Elem p a xs e' in (inr (r.0), r.1)
    ]
  ]
    where
      from_cons : p x ≡ true → (x ≡ a) ⊎ Elem a (filter p xs)
      from_cons y = rw y at e

  pub Elem-append : (a : A) (xs ys : List A) → Elem a (xs ++ ys) → Elem a xs ⊎ Elem a ys
  Elem-append a [] ys e = inr e
  Elem-append a (x ∷ xs) ys (inl p) = inl (inl p)
  Elem-append a (x ∷ xs) ys (inr p) = elim (Elem-append a xs ys p) [
    | inl q ↦ inl (inr q)
    | inr q ↦ inr q
  ]
