-- ===== src/Config/Whole.antt =====
-- Validate as a whole: the connections and the key bindings.
use pvetui.Base.{Option, none, some, All, ◌≡◌, ◌↔◌, refl}
use pvetui.Keys.{Tcell, Mods}
use pvetui.Keys.Bindings.{
  KeyBindings, BindingError, default_key_bindings, key_bindings_to_map, validate_key_bindings,
}
use pvetui.Keys.Verdict.{IsFine, Unique, combinations}
use pvetui.Keys.Accepting.{validate_key_bindings_iff}
use pvetui.Config.{Config}
use pvetui.Config.Validation.{
  ConfigError, bindings_error, validate, validate_connections, validate_config, or_later,
}
use pvetui.Config.Verdicts.{ConnectionsFit, validate_connections_iff}

-- What ValidateKeyBindings wants: each binding is empty, or parses and does not stand for reserved keys
-- unless it is the default of its action, and no two parse to the same keys.
abbrev pub BindingsFit : Tcell → KeyBindings → Type 0
BindingsFit t kb =
    All (IsFine t (key_bindings_to_map default_key_bindings)) (key_bindings_to_map kb)
    × Unique (combinations t (key_bindings_to_map kb))

both :
    {P Q : Type 0} (o : Option ConfigError) (b : Option BindingError)
    → (o ≡ none) ↔ P
    → (b ≡ none) ↔ Q
    → (or_later o (bindings_error b) ≡ none) ↔ (P × Q)
both none none p q = (λ h. (p.0 refl, q.0 refl), λ h. refl)
both none (some e) p q = (λ h. cc, λ h. let r = q.1 h.1 in cc)
both (some e) b p q = (λ h. cc, λ h. let r = p.1 h.0 in cc)

-- Where different modifiers have different masks, Validate accepts a configuration exactly where its
-- connections fit and its key bindings fit.
pub validate_config_iff :
    (t : Tcell) (kb : KeyBindings) (c : Config)
    → ((m n : Mods) → t.mask m ≡ t.mask n → m ≡ n)
    → (validate_config t kb c ≡ none) ↔ (ConnectionsFit c × BindingsFit t kb)
unfolding validate_config validate
validate_config_iff t kb c inj =
    both (validate_connections c) (validate_key_bindings t kb) (validate_connections_iff c)
      (validate_key_bindings_iff t kb inj)
