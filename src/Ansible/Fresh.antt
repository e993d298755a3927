-- ===== src/Ansible/Fresh.antt =====
-- The loop of uniqueAlias ends with an alias that no host has.
use pvetui.Base.{
  ℕ, zero, suc, ◌≤◌, ◌<◌, List, [], ◌∷◌, ◌++◌, Bool, true, false, ◌||◌, Str, str, str_eq,
  str_eq_iff, ◌==◌, if◌then◌else◌, length, tail, length-append, pos, itoa_injective, ◌≡◌, ◌≢◌, inl,
  inr, refl, sym, ap, ◌∙◌, arith, Bool-cases,
}
use pvetui.Ansible.{InventoryHost, has_alias, numbered, alias_from, unique_alias}

-- Tests of texts, as a list of hosts answers them.
abbrev has : List Str → Str → Bool
has [] alias = false
has (a ∷ as') alias = str_eq a alias || has as' alias

-- The list without a text.
abbrev without : Str → List Str → List Str
without c [] = []
without c (a ∷ as') = let rest = without c as' in if str_eq a c then rest else a ∷ rest

length-without-le : (c : Str) (l : List Str) → length (without c l) ≤ length l
length-without-le c [] = omega arith
length-without-le c (a ∷ l) = ground (arith, length-without-le c l)

length-without : (c : Str) (l : List Str) → has l c ≡ true → length (without c l) < length l
length-without c [] h = cc
length-without c (a ∷ l) h = ground (arith, length-without c l, length-without-le c l)

has-without : (c d : Str) (l : List Str) → d ≢ c → has (without c l) d ≡ has l d
has-without c d [] h = refl
has-without c d (a ∷ l) h = ground (arith, has-without c d l, str_eq_iff a c, str_eq_iff a d)

-- The search for the first text of a sequence that a list does not have.
searched : ℕ → List Str → (ℕ → Str) → ℕ → Str
searched zero l f idx = f idx
searched (suc fuel) l f idx =
    let next = searched fuel l f (suc idx) in if has l (f idx) then next else f idx

searched_at :
    (fuel : ℕ) (l : List Str) (f : ℕ → Str) (idx : ℕ)
    → (j : ℕ) × (idx ≤ j) × (searched fuel l f idx ≡ f j)
unfolding searched
searched_at zero l f idx = (idx, omega arith, refl)
searched_at (suc fuel) l f idx = elim (Bool-cases (has l (f idx))) [
  | inr n ↦ (idx, omega arith, rw n refl)
  | inl y ↦ let (j, h, e) = searched_at fuel l f (suc idx) in (j, omega (arith, h), rw y e)
]

-- The search sees only what the list has of the rest of the sequence.
searched_same :
    (fuel : ℕ) (l m : List Str) (f : ℕ → Str) (idx : ℕ)
    → ((j : ℕ) → idx ≤ j → has l (f j) ≡ has m (f j))
    → searched fuel l f idx ≡ searched fuel m f idx
unfolding searched
searched_same zero l m f idx h = refl
searched_same (suc fuel) l m f idx h =
    rw (h idx (omega arith), searched_same fuel l m f (suc idx) (λ j k. h j (omega (arith, k))))
      refl

-- The list runs out of texts before the sequence does.
searched_fresh :
    (f : ℕ → Str)
    → ((i j : ℕ) → f i ≡ f j → i ≡ j)
    → (fuel : ℕ) (l : List Str) (idx : ℕ) → length l < fuel
    → has l (searched fuel l f idx) ≡ false
unfolding searched
searched_fresh f inj zero l idx k = absurd (omega arith)
searched_fresh f inj (suc fuel) l idx k = elim (Bool-cases (has l (f idx))) [
  | inr n ↦ rw n n
  | inl y ↦
      let shorter = length-without (f idx) l y in
      rw y (
        after (searched_at fuel (without (f idx) l) f (suc idx))
          (searched_fresh f inj fuel (without (f idx) l) (suc idx) (omega (arith, shorter, k))))
]
  where
    differs : (j : ℕ) → suc idx ≤ j → f j ≢ f idx
    differs j h e = let q = inj j idx e in omega (arith, h, q)

    same : searched fuel l f (suc idx) ≡ searched fuel (without (f idx) l) f (suc idx)
    same =
        searched_same fuel l (without (f idx) l) f (suc idx)
          (λ j h. sym (has-without (f idx) (f j) l (differs j h)))

    after :
        (j : ℕ) × (suc idx ≤ j) × (searched fuel (without (f idx) l) f (suc idx) ≡ f j)
        → has (without (f idx) l) (searched fuel (without (f idx) l) f (suc idx)) ≡ false
        → has l (searched fuel l f (suc idx)) ≡ false
    after (j, h, e) free =
        rw (same, e) (sym (has-without (f idx) (f j) l (differs j h)) ∙ (rw e at free))

-- The alias that is tried with a number: the base itself with 1.
abbrev pub candidate : Str → ℕ → Str
candidate base idx = if idx == 1 then base else numbered base idx

longer : (s t : Str) → s ≡ s ++ (b'_' ∷ t) → ⊥
longer s t e =
    let h : length s ≡ length (s ++ (b'_' ∷ t)) = ap length e in
    let k = length-append s (b'_' ∷ t) in omega (arith, h, k)

cancel : (s t u : Str) → s ++ t ≡ s ++ u → t ≡ u
cancel [] t u e = e
cancel (c ∷ s) t u e = cancel s t u (ap tail e)

numbered_injective : (base : Str) (i j : ℕ) → numbered base i ≡ numbered base j → i ≡ j
numbered_injective base i j e =
    pos_injective (itoa_injective (pos i) (pos j) (ap tail (cancel base _ _ e)))
  where
    pos_injective : pos i ≡ pos j → i ≡ j
    pos_injective q = ground arith

candidate_injective : (base : Str) (i j : ℕ) → candidate base i ≡ candidate base j → i ≡ j
candidate_injective base i j e = elim (Bool-cases (i == 1)) [
  | inl y ↦ elim (Bool-cases (j == 1)) [
    | inl z ↦ ground arith
    | inr n ↦ absurd (longer base _ (rw (y, n) at e))
  ]
  | inr m ↦ elim (Bool-cases (j == 1)) [
    | inl z ↦ absurd (longer base _ (sym (rw (m, z) at e)))
    | inr n ↦ numbered_injective base i j (rw (m, n) at e)
  ]
]

abbrev pub aliases : List InventoryHost → List Str
aliases [] = []
aliases (h ∷ hosts) = h.alias ∷ aliases hosts

length-aliases : (hosts : List InventoryHost) → length (aliases hosts) ≡ length hosts
length-aliases [] = refl
length-aliases (h ∷ hosts) = ap suc (length-aliases hosts)

has-aliases : (hosts : List InventoryHost) (a : Str) → has_alias hosts a ≡ has (aliases hosts) a
unfolding has_alias
has-aliases [] a = refl
has-aliases (h ∷ hosts) a = rw (has-aliases hosts a) refl

alias_from-searched :
    (fuel : ℕ) (hosts : List InventoryHost) (base : Str) (idx : ℕ)
    → 1 ≤ idx
    → alias_from fuel hosts base idx (candidate base idx)
      ≡ searched fuel (aliases hosts) (candidate base) idx
unfolding alias_from searched
alias_from-searched zero hosts base idx h = refl
alias_from-searched (suc fuel) hosts base idx h =
    rw
      (
        has-aliases hosts (candidate base idx),
        ← next,
        alias_from-searched fuel hosts base (suc idx) (omega arith),
      )
      refl
  where
    next : candidate base (suc idx) ≡ numbered base (suc idx)
    next = ground arith

-- Whatever aliases there are, the loop of uniqueAlias ends, after one try more than there are hosts at
-- most, with an alias that no host has.
pub unique_alias_fresh :
    (existing : List InventoryHost) (base : Str)
    → has_alias existing (unique_alias existing base) ≡ false
unfolding unique_alias
unique_alias_fresh existing base =
    has-aliases existing _
    ∙ (rw (alias_from-searched (suc (length existing)) existing base' 1 (omega arith)) fresh)
  where
    base' : Str
    base' = if str_eq base [] then str "host" else base

    fresh :
        has
          (aliases existing)
          (searched (suc (length existing)) (aliases existing) (candidate base') 1)
        ≡ false
    fresh =
        searched_fresh (candidate base') (candidate_injective base') (suc (length existing))
          (aliases existing) 1 (rw (length-aliases existing) (omega arith))

-- The alias is the base, or "host" for none, or that with a number.
pub unique_alias_at :
    (existing : List InventoryHost) (base : Str)
    → (j : ℕ) × (unique_alias existing base
        ≡ candidate (if str_eq base [] then str "host" else base) j)
unfolding unique_alias
unique_alias_at existing base =
    let base' = if str_eq base [] then str "host" else base in
    let (j, h, e) = searched_at (suc (length existing)) (aliases existing) (candidate base') 1 in
    (j, alias_from-searched (suc (length existing)) existing base' 1 (omega arith) ∙ e)
