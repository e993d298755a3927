-- ===== src/Ansible/Bytes.antt =====
-- The bytes of the aliases and of the names of groups.
use pvetui.Base.{
  ℕ, ◌≤◌, List, [], ◌∷◌, ◌++◌, Bool, true, false, ◌&&◌, ◌||◌, Str, str, str_eq, ◌==◌, if◌then◌else◌,
  ℤ, pos, itoa, itoa-bytes, Elem, All, All-append, ◌≡◌, ◌⊎◌, inl, inr, refl, arith, Bool-cases,
  to_lower, trim_space,
}
use pvetui.Ansible.{
  InventoryHost, is_alnum, underscored, trim_left_underscores, trim_right_underscores, or_unknown,
  sanitize_identifier, unique_alias,
}
use pvetui.Ansible.Fresh.{candidate, unique_alias_at}

-- A letter or a digit in lower case, an underscore or a minus sign.
abbrev pub is_plain : ℕ → Bool
is_plain c = is_alnum c || (c == b'_' || c == b'-')

abbrev pub Plain : Str → Type 0
Plain = All (λ c. is_plain c ≡ true)

underscored-Plain : (prev : Bool) (s : Str) → Plain (underscored prev s)
unfolding underscored
underscored-Plain prev [] = tt
underscored-Plain prev (c ∷ s) = elim (Bool-cases (is_alnum c)) [
  | inl y ↦ rw y (rw y refl, underscored-Plain false s)
  | inr n ↦ elim (Bool-cases prev) [
    | inl p ↦ rw (n, p) (underscored-Plain true s)
    | inr q ↦ rw (n, q) (refl, underscored-Plain true s)
  ]
]

trim_left_underscores-Plain : (s : Str) → Plain s → Plain (trim_left_underscores s)
unfolding trim_left_underscores
trim_left_underscores-Plain [] h = h
trim_left_underscores-Plain (c ∷ s) h = elim (Bool-cases (c == b'_')) [
  | inl y ↦ rw y (trim_left_underscores-Plain s h.1)
  | inr n ↦ rw n h
]

trim_right_underscores-Plain : (s : Str) → Plain s → Plain (trim_right_underscores s)
unfolding trim_right_underscores
trim_right_underscores-Plain [] h = h
trim_right_underscores-Plain (c ∷ s) h =
    elim (Bool-cases (str_eq (trim_right_underscores s) [] && c == b'_')) [
      | inl y ↦ rw y tt
      | inr n ↦ rw n (h.0, trim_right_underscores-Plain s h.1)
    ]

abbrev all_plain : Str → Bool
all_plain [] = true
all_plain (c ∷ s) = is_plain c && all_plain s

pub literal-Plain : (s : Str) → all_plain s ≡ true → Plain s
literal-Plain [] h = tt
literal-Plain (c ∷ s) h = (ground arith, literal-Plain s (ground arith))

or_unknown-Plain : (s : Str) → Plain s → Plain (or_unknown s)
or_unknown-Plain s h = elim (Bool-cases (str_eq s [])) [
  | inl y ↦ rw y (literal-Plain (str "unknown") refl)
  | inr n ↦ rw n h
]

pub sanitize_identifier-Plain : (raw : Str) → Plain (sanitize_identifier raw)
unfolding sanitize_identifier
sanitize_identifier-Plain raw = elim (Bool-cases (str_eq (to_lower (trim_space raw)) [])) [
  | inl y ↦ rw y (literal-Plain (str "unknown") refl)
  | inr n ↦ rw n (
      or_unknown-Plain _ (
        trim_right_underscores-Plain _
          (trim_left_underscores-Plain _ (underscored-Plain false (to_lower (trim_space raw))))))
]

of_bytes : (s : Str) → ((c : ℕ) → Elem c s → is_plain c ≡ true) → Plain s
of_bytes [] h = tt
of_bytes (c ∷ s) h = (h c (inl refl), of_bytes s (λ d e. h d (inr e)))

pub itoa-Plain : (n : ℤ) → Plain (itoa n)
itoa-Plain n = of_bytes (itoa n) (λ c e. plain_digit c (itoa-bytes n c e))
  where
    plain_digit : (c : ℕ) → (c ≡ 45) ⊎ ((48 ≤ c) × (c ≤ 57)) → is_plain c ≡ true
    plain_digit c (inl e) = ground arith
    plain_digit c (inr (h, k)) = ground arith

pub join-Plain : (s t : Str) → Plain s → Plain t → Plain (s ++ t)
join-Plain s t h k = All-append (λ c. is_plain c ≡ true) s t h k

candidate-Plain : (base : Str) (j : ℕ) → Plain base → Plain (candidate base j)
candidate-Plain base j h = elim (Bool-cases (j == 1)) [
  | inl y ↦ rw y h
  | inr n ↦ rw n (join-Plain base (b'_' ∷ itoa (pos j)) h (refl, itoa-Plain (pos j)))
]

pub unique_alias-Plain :
    (existing : List InventoryHost) (base : Str) → Plain base → Plain (unique_alias existing base)
unique_alias-Plain existing base h =
    let (j, e) = unique_alias_at existing base in rw e (candidate-Plain _ j whole)
  where
    whole : Plain (if str_eq base [] then str "host" else base)
    whole = elim (Bool-cases (str_eq base [])) [
      | inl y ↦ rw y (literal-Plain (str "host") refl)
      | inr n ↦ rw n h
    ]
