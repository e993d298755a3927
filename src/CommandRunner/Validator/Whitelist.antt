-- ===== src/CommandRunner/Validator/Whitelist.antt =====
-- What a whitelist admits.
use pvetui.Base.{
  List, [], ◌∷◌, Option, none, some, Bool, true, false, Str, str_eq, str_eq_iff, ◌≡◌, ◌≢◌, refl,
  arith, ◌⊎◌, inl, inr, Bool-cases, Elem, ◌↔◌,
}
use pvetui.CommandRunner.Template.{parse_template}
use pvetui.CommandRunner.Validator.{
  allowed, AllowedCommands, TargetType, split_template, matches_template_structure, matches_pattern,
  is_empty, check_allowed, verdict_or, validate_command, get_allowed_commands,
}
use pvetui.CommandRunner.Validator.Structure.{matches_template_structure_iff, Fits}

-- The command is the pattern itself, or the pattern has a parameter and the command fits its template.
abbrev pub Admits : Str → Str → Type 0
Admits pattern command =
    (command ≡ pattern)
    ⊎ ((is_empty (parse_template pattern).parameters ≡ false)
        × Fits (split_template pattern) command)

matches_pattern-Admits :
    (command pattern : Str) → matches_pattern command pattern ≡ some true → Admits pattern command
unfolding matches_pattern
matches_pattern-Admits command pattern h = elim (Bool-cases (str_eq command pattern)) [
  | inl y ↦ inl ((str_eq_iff command pattern).0 y)
  | inr n ↦ elim (Bool-cases (is_empty (parse_template pattern).parameters)) [
    | inl y ↦ absurd (plain y n)
    | inr m ↦ inr (m, (matches_template_structure_iff command pattern).0 (rw (n, m) at h))
  ]
]
  where
    plain : is_empty (parse_template pattern).parameters ≡ true → str_eq command pattern ≡ false → ⊥
    plain y n = ground arith

Admits-matches_pattern :
    (command pattern : Str) → Admits pattern command → matches_pattern command pattern ≡ some true
unfolding matches_pattern
Admits-matches_pattern command pattern (inl e) = ground (arith, str_eq_iff command pattern)
Admits-matches_pattern command pattern (inr (m, f)) =
    ground (arith, (matches_template_structure_iff command pattern).1 f)

check_allowed-Admits :
    (patterns : List Str) (command : Str)
    → check_allowed patterns command ≡ allowed
    → (pattern : Str) × Elem pattern patterns × Admits pattern command
unfolding check_allowed
check_allowed-Admits [] command h = cc
check_allowed-Admits (p ∷ ps) command h =
    by_match (matches_pattern command p) refl (check_allowed-Admits ps command)
  where
    by_match :
        (m : Option Bool)
        → matches_pattern command p ≡ m
        → (check_allowed ps command ≡ allowed → (q : Str) × Elem q ps × Admits q command)
        → (q : Str) × Elem q (p ∷ ps) × Admits q command
    by_match none e rec = absurd (ground arith)
    by_match (some true) e rec = (p, inl refl, matches_pattern-Admits command p e)
    by_match (some false) e rec = let (q, m, a) = rec (ground arith) in (q, inr m, a)

Admits-check_allowed :
    (patterns : List Str) (command pattern : Str)
    → ((p : Str) → Elem p patterns → matches_pattern command p ≢ none)
    → Elem pattern patterns
    → Admits pattern command
    → check_allowed patterns command ≡ allowed
unfolding check_allowed
Admits-check_allowed [] command pattern safe m a = absurd m
Admits-check_allowed (p ∷ ps) command pattern safe m a =
    by_match (matches_pattern command p) refl m
      λ later. Admits-check_allowed ps command pattern (λ q k. safe q (inr k)) later a
  where
    by_match :
        (o : Option Bool)
        → matches_pattern command p ≡ o
        → (p ≡ pattern) ⊎ Elem pattern ps
        → (Elem pattern ps → check_allowed ps command ≡ allowed)
        → verdict_or (matches_pattern command p) (check_allowed ps command) ≡ allowed
    by_match none e place rec = absurd (safe p (inl refl) e)
    by_match (some true) e place rec = rw e
    by_match (some false) e (inr later) rec = rw e (rec later)
    by_match (some false) e (inl here) rec =
        absurd (clash (Admits-matches_pattern command p (rw here a)) e)
      where
        clash : matches_pattern command p ≡ some true → matches_pattern command p ≡ some false → ⊥
        clash x y = cc

-- A command passes the whitelist of its target only if some pattern of that whitelist admits it.
pub validate_command-Admits :
    (config : AllowedCommands) (target : TargetType) (command : Str)
    → validate_command config target command ≡ allowed
    → (pattern : Str) × Elem pattern (get_allowed_commands config target) × Admits pattern command
unfolding validate_command get_allowed_commands
validate_command-Admits config TargetType.host command h =
    check_allowed-Admits config.host command h
validate_command-Admits config TargetType.container command h =
    check_allowed-Admits config.container command h
validate_command-Admits config TargetType.vm command h = check_allowed-Admits config.vm command h
validate_command-Admits config (TargetType.other t) command h = cc

-- Where no pattern of the whitelist makes the matcher panic, every command that a pattern of it admits
-- passes.
Admits-validate_command :
    (config : AllowedCommands) (target : TargetType) (command pattern : Str)
    → ((p : Str) → Elem p (get_allowed_commands config target) → matches_pattern command p ≢ none)
    → Elem pattern (get_allowed_commands config target)
    → Admits pattern command
    → validate_command config target command ≡ allowed
unfolding validate_command get_allowed_commands
Admits-validate_command config TargetType.host command p safe m a =
    Admits-check_allowed config.host command p safe m a
Admits-validate_command config TargetType.container command p safe m a =
    Admits-check_allowed config.container command p safe m a
Admits-validate_command config TargetType.vm command p safe m a =
    Admits-check_allowed config.vm command p safe m a
Admits-validate_command config (TargetType.other t) command p safe m a = absurd m

-- Matching panics exactly on another command than the pattern, where the pattern has a parameter and
-- no static text.
matches_pattern_panics :
    (command pattern : Str)
    → (matches_pattern command pattern ≡ none) ↔ (
        (command ≢ pattern)
        × (is_empty (parse_template pattern).parameters ≡ false)
        × (split_template pattern ≡ []))
unfolding matches_pattern matches_template_structure
matches_pattern_panics command pattern = (
  λ h. (differs h, ground arith, no_parts (split_template pattern) refl h),
  λ (ne, m, e). rw (m, e) (ground (arith, str_eq_iff command pattern)),
)
  where
    differs : matches_pattern command pattern ≡ none → command ≢ pattern
    differs h e = ground (arith, str_eq_iff command pattern)

    no_parts :
        (parts : List Str)
        → split_template pattern ≡ parts
        → matches_pattern command pattern ≡ none
        → split_template pattern ≡ []
    no_parts [] e h = e
    no_parts (q ∷ qs) e h = absurd (ground arith)
