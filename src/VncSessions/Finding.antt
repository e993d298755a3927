-- ===== src/VncSessions/Finding.antt =====
-- Which session findReusableSession finds.
use pvetui.Base.{
  ℕ, [], ◌∷◌, none, some, Bool, true, false, not, ◌&&◌, Str, str_eq, str_eq_iff, Dict, get,
  Distinct, ◌≡◌, inl, inr, refl, sym, ◌∙◌, arith, Bool-cases,
}
use pvetui.VncSessions.{VncSession, find_reusable, get_target_key, is_reusable, is_expired}

-- A session that may be used again for a target: it is for that target, without a client, and not too
-- long out of use.
abbrev pub is_candidate : Str → ℕ → ℕ → VncSession → Bool
is_candidate target_key timeout now s =
    str_eq (get_target_key s) target_key && (is_reusable s && not (is_expired s timeout now))

pub find_reusable_found :
    (m : Dict VncSession) (target_key : Str) (timeout now : ℕ) (s : VncSession)
    → Distinct m
    → find_reusable m target_key timeout now ≡ some s
    → (id : Str) × (get id m ≡ some s) × (is_candidate target_key timeout now s ≡ true)
unfolding find_reusable get
find_reusable_found [] target_key timeout now s d e = cc
find_reusable_found ((j, t) ∷ m) target_key timeout now s d e =
    elim (Bool-cases (is_candidate target_key timeout now t)) [
      | inl y ↦ (j, rw ((str_eq_iff j j).1 refl) (rw y at e), rw (← same (rw y at e)) y)
      | inr n ↦ later (find_reusable_found m target_key timeout now s d.1 (rw n at e))
    ]
  where
    same : some t ≡ some s → t ≡ s
    same q = ground (arith, q)

    later :
        (id : Str) × (get id m ≡ some s) × (is_candidate target_key timeout now s ≡ true)
        → (id : Str) × (get id ((j, t) ∷ m) ≡ some s)
          × (is_candidate target_key timeout now s ≡ true)
    later (id, g, c) = (id, rw (differs id g) g, c)
      where
        differs : (id : Str) → get id m ≡ some s → str_eq j id ≡ false
        differs id g = elim (Bool-cases (str_eq j id)) [
          | inl y ↦ clash (rw ((str_eq_iff j id).0 y) g)
          | inr n ↦ n
        ]
          where
            clash : {b : Bool} → get j m ≡ some s → b ≡ false
            clash q = let r = sym d.0 ∙ q in cc

pub find_reusable_nothing :
    (m : Dict VncSession) (target_key : Str) (timeout now : ℕ)
    → find_reusable m target_key timeout now ≡ none
    → (id : Str) (s : VncSession) → get id m ≡ some s
    → is_candidate target_key timeout now s ≡ false
unfolding find_reusable get
find_reusable_nothing [] target_key timeout now e id s g = cc
find_reusable_nothing ((j, t) ∷ m) target_key timeout now e id s g =
    elim (Bool-cases (is_candidate target_key timeout now t)) [
      | inl y ↦ absurd (found (rw y at e))
      | inr n ↦ elim (Bool-cases (str_eq j id)) [
        | inl y ↦ rw (← same (rw y at g)) n
        | inr x ↦ find_reusable_nothing m target_key timeout now (rw n at e) id s (rw x at g)
      ]
    ]
  where
    found : some t ≡ none → ⊥
    found q = cc

    same : some t ≡ some s → t ≡ s
    same q = ground (arith, q)
