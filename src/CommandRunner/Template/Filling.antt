-- ===== src/CommandRunner/Template/Filling.antt =====
-- What FillTemplate gives, and when it refuses.
use pvetui.Base.{
  List, [], ◌∷◌, none, some, true, false, Str, Dict, get, ◌≡◌, refl, ◌⊎◌, inl, inr, Bool-cases,
  Option-cases, Elem, ◌++◌, replace_all, ℕ, map, ap, contains, contains_iff, Occurs,
}
use pvetui.CommandRunner.Template.{
  CommandTemplate, filled, refused, FillError, missing_parameter, invalid_characters,
  contains_shell_metachars, contains_any, fill_value, fill_params, fill_template,
}

-- What FillTemplate must keep out of a command line: ; & | $ ` ( ) < > and the two line ends.
abbrev pub metachars : List ℕ
metachars = 59 ∷ 38 ∷ 124 ∷ 36 ∷ 96 ∷ 40 ∷ 41 ∷ 60 ∷ 62 ∷ 10 ∷ 13 ∷ []

-- The value of a parameter is given and no byte of it is a shell metacharacter.
pub record IsClean (values : Dict Str) (param : Str) : Type 0 where
  pub value : Str
  pub given : get param values ≡ some value
  pub harmless : (c : ℕ) → Elem c metachars → Elem c value → ⊥

-- Each parameter in its turn is replaced by its value.
abbrev pub substituted : Dict Str → List Str → Str → Str
substituted values [] text = text
substituted values (param ∷ rest) text = substituted values rest (elim (get param values) [
  | none ↦ text
  | some value ↦ replace_all text (b'{' ∷ (param ++ b'}' ∷ [])) value
])

-- The first parameter that is not clean, with the refusal that it meets.
pub record Refuses (values : Dict Str) (params : List Str) (e : FillError) : Type 0 where
  pub before : List Str
  pub param : Str
  pub after : List Str
  pub whole : params ≡ before ++ param ∷ after
  pub first : (p : Str) → Elem p before → IsClean values p
  pub reason :
      ((e ≡ missing_parameter param) × (get param values ≡ none))
      ⊎ ((v : Str) × (c : ℕ) × (e ≡ invalid_characters param)
          × (get param values ≡ some v)
          × Elem c metachars
          × Elem c v)

Elem-split : (c : ℕ) (s : Str) → Elem c s → Occurs (c ∷ []) s
Elem-split c [] m = absurd m
Elem-split c (d ∷ s) (inl e) = record { before = []; after = s; split = rw e refl }
Elem-split c (d ∷ s) (inr m) =
    let o = Elem-split c s m in
    record { before = d ∷ o.before; after = o.after; split = ap (λ r. d ∷ r) o.split }

split-Elem : (c : ℕ) (before after : Str) → Elem c (before ++ c ∷ after)
split-Elem c [] after = inl refl
split-Elem c (d ∷ before) after = inr (split-Elem c before after)

Occurs-Elem : {c : ℕ} {s : Str} → Occurs (c ∷ []) s → Elem c s
Occurs-Elem {c} o = rw (o.split) (split-Elem c o.before o.after)

contains_any_cases :
    (s : Str) (cs : List ℕ)
    → ((contains_any s (map (λ c. c ∷ []) cs) ≡ false) × ((c : ℕ) → Elem c cs → Elem c s → ⊥))
      ⊎ ((contains_any s (map (λ c. c ∷ []) cs) ≡ true) × ((c : ℕ) × Elem c cs × Elem c s))
unfolding contains_any
contains_any_cases s [] = inl (refl, λ c m. absurd m)
contains_any_cases s (d ∷ cs) = elim (Bool-cases (contains s (d ∷ []))) [
  | inl y ↦ inr (rw y refl, (d, inl refl, Occurs-Elem ((contains_iff s (d ∷ [])).0 y)))
  | inr n ↦ elim (contains_any_cases s cs) [
    | inr (e, (c, m, i)) ↦ inr (rw n e, (c, inr m, i))
    | inl (e, h) ↦
        inl (rw n e, λ c m i. elim m [ inl q ↦ absent n (rw (← q) at i) | inr later ↦ h c later i ])
  ]
]
  where
    absent : contains s (d ∷ []) ≡ false → Elem d s → ⊥
    absent n i = let y = (contains_iff s (d ∷ [])).1 (Elem-split d s i) in cc

metachars_cases :
    (s : Str)
    → ((contains_shell_metachars s ≡ false) × ((c : ℕ) → Elem c metachars → Elem c s → ⊥))
      ⊎ ((contains_shell_metachars s ≡ true) × ((c : ℕ) × Elem c metachars × Elem c s))
unfolding contains_shell_metachars
metachars_cases s = contains_any_cases s metachars

fill_params_cases :
    (values : Dict Str) (params : List Str) (result : Str)
    → ((fill_params values params result ≡ filled (substituted values params result))
        × ((p : Str) → Elem p params → IsClean values p))
      ⊎ ((e : FillError) × (fill_params values params result ≡ refused e) × Refuses values params e)
unfolding fill_params fill_value
fill_params_cases values [] result = inl (refl, λ p m. absurd m)
fill_params_cases values (p ∷ ps) result = elim (Option-cases (get p values)) [
  | inl e ↦ inr (
    missing_parameter p,
    rw (e, fill_value),
    record {
      before = [];
      param = p;
      after = ps;
      whole = refl;
      first = λ q m. absurd m;
      reason = inl (refl, e);
    },
  )
  | inr (v, e) ↦ elim (metachars_cases v) [
    | inr (y, (c, m, i)) ↦ inr (
      invalid_characters p,
      rw (e, fill_value) (rw y),
      record {
        before = [];
        param = p;
        after = ps;
        whole = refl;
        first = λ q m. absurd m;
        reason = inr (v, c, refl, e, m, i);
      },
    )
    | inl (n, safe) ↦
        elim (fill_params_cases values ps (replace_all result (b'{' ∷ (p ++ b'}' ∷ [])) v)) [
          | inl (h, clean) ↦ inl (
            rw (e, fill_value) (rw n h),
            λ q m. elim m [
              | inl here ↦ rw (← here) (record { value = v; given = e; harmless = safe })
              | inr later ↦ clean q later
            ],
          )
          | inr (x, h, r) ↦ inr (
            x,
            rw (e, fill_value) (rw n h),
            record {
              before = p ∷ r.before;
              param = r.param;
              after = r.after;
              whole = rw (r.whole) refl;
              first = λ q m. elim m [
                | inl here ↦ rw (← here) (record { value = v; given = e; harmless = safe })
                | inr earlier ↦ r.first q earlier
              ];
              reason = r.reason;
            },
          )
        ]
  ]
]

-- Filling a template either succeeds, and then every parameter has a value without a shell metacharacter
-- (; & | $ ` ( ) < > or a line end) and the text is the template with each parameter in its turn replaced
-- by its value; or it is refused for the first parameter whose value is missing or holds a shell
-- metacharacter, with that reason.
pub fill_template_cases :
    (t : CommandTemplate) (values : Dict Str)
    → ((fill_template t values ≡ filled (substituted values t.parameters t.template))
        × ((p : Str) → Elem p t.parameters → IsClean values p))
      ⊎ ((e : FillError) × (fill_template t values ≡ refused e) × Refuses values t.parameters e)
unfolding fill_template
fill_template_cases t values = fill_params_cases values t.parameters t.template
