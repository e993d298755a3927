-- ===== src/Base/Int.antt =====
-- Go's `int`, whose overflow no modelled code reaches, and its decimal text (`%d`).
use Prim.Native.Nat.{ℕ, zero, suc, ◌+◌, ◌-◌, ◌*◌, ◌/◌, ◌%◌, ◌≤◌, ◌<◌}
use mathlib.Core.Path.{◌≡◌, refl, sym, ap, ◌∙◌}
use mathlib.Core.Logic.{◌↔◌, ◌⊎◌, inl, inr}
use mathlib.Core.Bool.{Bool, true, false}
use mathlib.Core.List.{[], ◌∷◌, ◌++◌}
use native.Mathlib.Omega.{arith}
use pvetui.Base.Tests.{ltb, ◌==◌, if◌then◌else◌, Bool-cases, ltb→lt, ltb-false→le}
use pvetui.Base.Lists.{Elem, tail}
use pvetui.Base.Text.{Str}

-- `negsuc n` is -(n + 1).
pub data ℤ : Type 0 where
  pos : ℕ → ℤ
  negsuc : ℕ → ℤ

unfoldable pub int_eq : ℤ → ℤ → Bool
int_eq (pos a) (pos b) = a == b
int_eq (pos a) (negsuc b) = false
int_eq (negsuc a) (pos b) = false
int_eq (negsuc a) (negsuc b) = a == b

pub int_eq_iff : (a b : ℤ) → (int_eq a b ≡ true) ↔ (a ≡ b)
unfolding int_eq
int_eq_iff a b = ground arith

-- Decimal digits, the most significant first; a number below the fuel has no more digits than that.
digits : ℕ → ℕ → Str → Str
digits zero n acc = acc
digits (suc fuel) n acc =
    let acc' = (48 + n % 10) ∷ acc in
    let rest = digits fuel (n / 10) acc' in if ltb n 10 then acc' else rest

unfoldable pub itoa_nat : ℕ → Str
unfolding digits
itoa_nat n = digits (suc n) n []

digits_three :
    (fuel n : ℕ)
    → 100 ≤ n
    → n < 1000
    → digits (suc (suc (suc fuel))) n []
      ≡ (48 + n / 10 / 10 % 10) ∷ (48 + n / 10 % 10) ∷ (48 + n % 10) ∷ []
unfolding digits
digits_three fuel n h k = rw (ge, ge', lt) refl
  where
    ge : ltb n 10 ≡ false
    ge = ground arith

    ge' : ltb (n / 10) 10 ≡ false
    ge' = ground arith

    lt : ltb (n / 10 / 10) 10 ≡ true
    lt = ground arith

-- A number of three digits.
pub itoa_nat_three :
    (n : ℕ)
    → 100 ≤ n
    → n < 1000
    → itoa_nat n ≡ (48 + n / 10 / 10 % 10) ∷ (48 + n / 10 % 10) ∷ (48 + n % 10) ∷ []
unfolding itoa_nat
itoa_nat_three n h k = ap (λ f. digits (suc f) n []) enough ∙ digits_three (n - 2) n h k
  where
    enough : n ≡ suc (suc (n - 2))
    enough = omega arith

unfoldable pub itoa : ℤ → Str
unfolding itoa_nat
itoa (pos n) = itoa_nat n
itoa (negsuc n) = 45 ∷ itoa_nat (suc n)

-- strconv.Atoi on digits, after a number that is read already.
value : ℕ → Str → ℕ
value v [] = v
value v (c ∷ s) = value (v * 10 + (c - 48)) s

value-digits : (fuel n : ℕ) (acc : Str) → n < fuel → value 0 (digits fuel n acc) ≡ value n acc
unfolding digits value
value-digits zero n acc h = absurd (omega arith)
value-digits (suc fuel) n acc h = elim (Bool-cases (ltb n 10)) [
  | inl y ↦ rw y (ap (λ v. value v acc) (last (ltb→lt n 10 y)))
  | inr f ↦
      rw f
        (value-digits fuel (n / 10) _ (shorter (ltb-false→le n 10 f)) ∙ ap (λ v. value v acc) digit)
]
  where
    last : n < 10 → 0 * 10 + (48 + n % 10 - 48) ≡ n
    last k = omega arith

    digit : n / 10 * 10 + (48 + n % 10 - 48) ≡ n
    digit = omega arith

    shorter : 10 ≤ n → n / 10 < fuel
    shorter k = omega arith

-- A byte between '0' and '9'.
abbrev IsDigit : ℕ → Type 0
IsDigit c = (48 ≤ c) × (c ≤ 57)

digits-IsDigit :
    (fuel n : ℕ) (acc : Str)
    → ((c : ℕ) → Elem c acc → IsDigit c)
    → (c : ℕ) → Elem c (digits fuel n acc)
    → IsDigit c
unfolding digits
digits-IsDigit zero n acc h = h
digits-IsDigit (suc fuel) n acc h = elim (Bool-cases (ltb n 10)) [
  | inl y ↦ rw y longer
  | inr f ↦ rw f (digits-IsDigit fuel (n / 10) _ longer)
]
  where
    longer : (c : ℕ) → Elem c ((48 + n % 10) ∷ acc) → IsDigit c
    longer c (inl e) = (omega arith, omega arith)
    longer c (inr e) = h c e

-- The bytes of a printed number are digits and the minus sign.
pub itoa-bytes : (n : ℤ) (c : ℕ) → Elem c (itoa n) → (c ≡ 45) ⊎ IsDigit c
unfolding itoa itoa_nat
itoa-bytes (pos n) c e = inr (digits-IsDigit (suc n) n [] (λ c e. absurd e) c e)
itoa-bytes (negsuc n) c (inl e) = inl (sym e)
itoa-bytes (negsuc n) c (inr e) =
    inr (digits-IsDigit (suc (suc n)) (suc n) [] (λ c e. absurd e) c e)

value-itoa_nat : (n : ℕ) → value 0 (itoa_nat n) ≡ n
unfolding itoa_nat value
value-itoa_nat n = value-digits (suc n) n [] (omega arith)

itoa_nat_injective : (m n : ℕ) → itoa_nat m ≡ itoa_nat n → m ≡ n
itoa_nat_injective m n e = sym (value-itoa_nat m) ∙ ap (value 0) e ∙ value-itoa_nat n

not_minus : (m n : ℕ) → itoa_nat m ≡ 45 ∷ itoa_nat n → ⊥
unfolding itoa_nat
not_minus m n e =
    let d = digits-IsDigit (suc m) m [] (λ c e. absurd e) 45 (rw e (inl refl)) in omega (arith, d.0)

-- Different numbers print differently.
pub itoa_injective : (a b : ℤ) → itoa a ≡ itoa b → a ≡ b
unfolding itoa
itoa_injective (pos m) (pos n) e = ap pos (itoa_nat_injective m n e)
itoa_injective (pos m) (negsuc n) e = absurd (not_minus m (suc n) e)
itoa_injective (negsuc m) (pos n) e = absurd (not_minus n (suc m) (sym e))
itoa_injective (negsuc m) (negsuc n) e =
    let p = itoa_nat_injective (suc m) (suc n) (ap tail e) in ap negsuc (omega (arith, p))

inside : (c : ℕ) (b y x : Str) → x ≡ b ++ c ∷ y → Elem c x
inside c [] y x e = rw e (inl refl)
inside c (d ∷ b) y x e = rw e (inr (inside c b y (b ++ c ∷ y) refl))

-- A text, a separator and a text without the separator determine the two texts.
pub separated_injective :
    (c : ℕ) (a b x y : Str)
    → (Elem c x → ⊥)
    → (Elem c y → ⊥)
    → a ++ c ∷ x ≡ b ++ c ∷ y
    → (a ≡ b) × (x ≡ y)
separated_injective c [] [] x y h k e = (refl, ap tail e)
separated_injective c [] (d ∷ b) x y h k e = absurd (h (inside c b y x (ap tail e)))
separated_injective c (d ∷ a) [] x y h k e = absurd (k (inside c a x y (sym (ap tail e))))
separated_injective c (d ∷ a) (d' ∷ b) x y h k e =
    let (p, q) = separated_injective c a b x y h k (ap tail e) in (cc (e, p), q)
