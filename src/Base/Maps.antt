-- ===== src/Base/Maps.antt =====
-- Go's `map[string]V` as an association list. The list's order stands for the order in which a
-- `range` loop meets the entries, which Go leaves open.
use Prim.Native.Nat.{◌+◌}
use mathlib.Core.Path.{◌≡◌, refl, sym, ◌∙◌}
use mathlib.Core.Logic.{◌↔◌, ◌≢◌, inl, inr}
use mathlib.Core.Bool.{true, false}
use mathlib.Core.Option.{Option, none, some}
use mathlib.Core.List.{List, [], ◌∷◌}
use native.Mathlib.Omega.{arith}
use pvetui.Base.Tests.{if◌then◌else◌, is_some, Bool-cases}
use pvetui.Base.Lists.{length, Elem}
use pvetui.Base.Text.{Str, str_eq, str_eq_iff}

abbrev pub Dict {ℓ} : Type ℓ → Type ℓ
Dict V = List (Str × V)

module _ {ℓ} {V : Type ℓ} where
  -- v, ok := m[k]
  unfoldable pub get : Str → Dict V → Option V
  get k [] = none
  get k ((j, v) ∷ m) = if str_eq j k then some v else get k m

  -- m[k] = v
  unfoldable pub put : Str → V → Dict V → Dict V
  put k v [] = (k, v) ∷ []
  put k v ((j, w) ∷ m) = if str_eq j k then (k, v) ∷ m else (j, w) ∷ put k v m

  -- delete(m, k)
  unfoldable pub delete : Str → Dict V → Dict V
  delete k [] = []
  delete k ((j, v) ∷ m) = let rest = delete k m in if str_eq j k then rest else (j, v) ∷ rest

  abbrev pub keys : Dict V → List Str
  keys [] = []
  keys ((j, v) ∷ m) = j ∷ keys m

  -- No key stands twice, as in every Go map.
  abbrev pub Distinct : Dict V → Type ℓ
  Distinct [] = Unit
  Distinct ((j, v) ∷ m) = (get j m ≡ none) × Distinct m

  pub get-put :
      (k j : Str) (v : V) (m : Dict V)
      → get j (put k v m) ≡ (if str_eq k j then some v else get j m)
  unfolding get put
  get-put k j v [] = refl
  get-put k j v ((i, w) ∷ m) =
      ground (arith, str_eq_iff k j, str_eq_iff i k, str_eq_iff i j, get-put k j v m)

  -- A key is missing after an insertion exactly when it is another one that was missing before.
  pub get-put-none :
      (k j : Str) (v : V) (m : Dict V) → (get j (put k v m) ≡ none) ↔ ((k ≢ j) × (get j m ≡ none))
  get-put-none k j v m = rw (get-put k j v m) (there, back)
    where
      there : (if str_eq k j then some v else get j m) ≡ none → (k ≢ j) × (get j m ≡ none)
      there h = elim (Bool-cases (str_eq k j)) [
        | inl y ↦ absurd (some_none (rw y at h))
        | inr n ↦ (λ p. true_false (sym ((str_eq_iff k j).1 p) ∙ n), rw n at h)
      ]
        where
          some_none : some v ≡ none → ⊥
          some_none e = cc

          true_false : true ≡ false → ⊥
          true_false e = cc

      back : (k ≢ j) × (get j m ≡ none) → (if str_eq k j then some v else get j m) ≡ none
      back (d, h) = elim (Bool-cases (str_eq k j)) [
        | inl y ↦ absurd (d ((str_eq_iff k j).0 y))
        | inr n ↦ rw n h
      ]

  pub get-delete :
      (k j : Str) (m : Dict V) → get j (delete k m) ≡ (if str_eq k j then none else get j m)
  unfolding get delete
  get-delete k j [] = ground arith
  get-delete k j ((i, w) ∷ m) =
      ground (arith, str_eq_iff k j, str_eq_iff i k, str_eq_iff i j, get-delete k j m)

  pub put-Distinct : (k : Str) (v : V) (m : Dict V) → Distinct m → Distinct (put k v m)
  unfolding get put
  put-Distinct k v [] d = (refl, tt)
  put-Distinct k v ((i, w) ∷ m) d =
      ground (arith, str_eq_iff i k, str_eq_iff k i, get-put k i v m, put-Distinct k v m d.1)

  pub delete-Distinct : (k : Str) (m : Dict V) → Distinct m → Distinct (delete k m)
  unfolding delete
  delete-Distinct k [] d = tt
  delete-Distinct k ((i, w) ∷ m) d =
      ground (arith, get-delete k i m, str_eq_iff k i, delete-Distinct k m d.1)

  -- Deleting a key that is missing changes nothing.
  pub delete-none : (k : Str) (m : Dict V) → get k m ≡ none → delete k m ≡ m
  unfolding get delete
  delete-none k [] h = refl
  delete-none k ((i, w) ∷ m) h = ground (arith, delete-none k m)

  pub length-put :
      (k : Str) (v : V) (m : Dict V)
      → length (put k v m) ≡ (if is_some (get k m) then length m else length m + 1)
  unfolding get put
  length-put k v [] = refl
  length-put k v ((i, w) ∷ m) = ground (arith, length-put k v m)

  delete_missing : (k : Str) (m : Dict V) → get k m ≡ none → delete k m ≡ m
  unfolding get delete
  delete_missing k [] h = refl
  delete_missing k ((i, w) ∷ m) h = ground (arith, delete_missing k m)

  -- A key that was not there goes again without a trace.
  pub delete-put : (k : Str) (v : V) (m : Dict V) → get k m ≡ none → delete k (put k v m) ≡ m
  unfolding get put delete
  delete-put k v [] h = ground (arith, str_eq_iff k k)
  delete-put k v ((i, w) ∷ m) h = ground (arith, delete-put k v m)

  -- An overwritten entry is deleted like the one it was.
  pub delete_overwritten : (k : Str) (v : V) (m : Dict V) → delete k (put k v m) ≡ delete k m
  unfolding put delete
  delete_overwritten k v [] = rw ((str_eq_iff k k).1 refl) refl
  delete_overwritten k v ((i, w) ∷ m) = elim (Bool-cases (str_eq i k)) [
    | inl y ↦ rw (y, (str_eq_iff k k).1 refl) refl
    | inr n ↦ rw n (rw (n, delete_overwritten k v m) refl)
  ]

  pub length-delete :
      (k : Str) (m : Dict V)
      → Distinct m
      → length m ≡ (if is_some (get k m) then length (delete k m) + 1 else length (delete k m))
  unfolding get delete
  length-delete k [] d = refl
  length-delete k ((i, w) ∷ m) d =
      ground (arith, str_eq_iff i k, length-delete k m d.1, delete_missing k m)

  pub get-mem_keys : (k : Str) (v : V) (m : Dict V) → get k m ≡ some v → Elem k (keys m)
  unfolding get
  get-mem_keys k v [] e = cc
  get-mem_keys k v ((i, w) ∷ m) e = elim (Bool-cases (str_eq i k)) [
    | inl y ↦ inl ((str_eq_iff i k).0 y)
    | inr n ↦ inr (get-mem_keys k v m (rw n at e))
  ]
