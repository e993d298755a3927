-- ===== src/CommandRunner/Executor/Gate.antt =====
-- What reaches the hosts, and how much comes back.
use pvetui.Base.{
  ℕ, ◌≤◌, List, [], ◌∷◌, Option, none, some, true, false, Str, str_eq_refl, ltb, length,
  length-take-le, is_some, Option-cases, ℤ, ◌≡◌, ◌≢◌, refl, arith, ◌⊎◌, inl, inr, Elem, Bool-cases,
  ltb-false→le,
}
use pvetui.CommandRunner.Validator.{
  Verdict, allowed, fault, AllowedCommands, TargetType, validate_command, validate_vm_command,
  get_allowed_commands, allowed_commands_for_vm, allowed_for_family, OsFamily, detect_os_family,
  or_default, check_allowed, matches_pattern,
}
use pvetui.CommandRunner.Validator.Whitelist.{Admits, validate_command-Admits}
use pvetui.CommandRunner.Executor.{
  Executor, ExecutionResult, Remote, ssh_command, ssh_container, guest_agent, Answer, Run, limited,
  ssh_result, agent_result, combined, gated, execute_host_command, execute_container_command,
  execute_vm_command, execute_custom_host_command, execute_custom_container_command,
  execute_custom_vm_command, add_to_whitelist, build_guest_agent_command,
}

limited-le :
    (max : ℕ) (command : Str) (code : ℤ) (output : Str)
    → length (limited max command code output).output ≤ max
unfolding limited
limited-le max command code output = elim (Bool-cases (ltb max (length output))) [
  | inl y ↦ rw y (length-take-le max output)
  | inr n ↦ rw n (ltb-false→le max (length output) n)
]

ssh_result-le :
    (max : ℕ) (command : Str) (a : Answer) (o : Option Str)
    → (ssh_result max command a o).error ≡ none
    → length (ssh_result max command a o).output ≤ max
unfolding ssh_result
ssh_result-le max command a (some x) h = cc
ssh_result-le max command a none h = limited-le max command _ a.stdout

agent_result-le :
    (max : ℕ) (command : Str) (a : Answer) (o : Option Str)
    → (agent_result max command a o).error ≡ none
    → length (agent_result max command a o).output ≤ max
unfolding agent_result
agent_result-le max command a (some x) h = cc
agent_result-le max command a none h = limited-le max command a.code (combined a.stdout a.stderr)

-- Nothing is sent and an error is reported, or the whitelist admits the command and it is the one call.
abbrev pub Gated : AllowedCommands → TargetType → Str → Remote → Run → Type 0
Gated config target command call r =
    ((r.1 ≡ []) × (r.0.error ≢ none))
    ⊎ ((r.1 ≡ call ∷ [])
        × ((pattern : Str) × Elem pattern (get_allowed_commands config target)
            × Admits pattern command))

gated_run :
    (config : AllowedCommands) (target : TargetType) (command : Str) (call : Remote) (r : Run)
    (v : Verdict)
    → validate_command config target command ≡ v
    → r.1 ≡ call ∷ []
    → Gated config target command call (gated v command r)
gated_run config target command call r (fault f) e sent = inl (refl, λ x. cc)
gated_run config target command call r allowed e sent =
    inr (sent, validate_command-Admits config target command e)

-- ExecuteHostCommand and ExecuteContainerCommand send a command only if a pattern of the whitelist of the
-- target admits it, and then once and unchanged; otherwise they send nothing and the result is an error.
-- The custom variants of the two, which are documented to send without validation, are not meant.
pub execute_command-Gated :
    (e : Executor) (host : Str) (id : ℤ) (command : Str)
    → Gated e.allowed_commands TargetType.host command
        (ssh_command host command)
        (execute_host_command e host command)
      × Gated e.allowed_commands TargetType.container command
          (ssh_container host id command)
          (execute_container_command e host id command)
unfolding execute_host_command execute_container_command
execute_command-Gated e host id command = (
  gated_run e.allowed_commands TargetType.host command (ssh_command host command)
      (execute_custom_host_command e host command) _ refl refl,
  gated_run e.allowed_commands TargetType.container command (ssh_container host id command)
      (execute_custom_container_command e host id command) _ refl refl,
)

-- An error, or an output within the limit.
abbrev pub WithinLimit : ℕ → ExecutionResult → Type 0
WithinLimit max r = (is_some r.error ≡ true) ⊎ (length r.output ≤ max)

gated-le :
    (max : ℕ) (command : Str) (r : Run) (v : Verdict)
    → (r.0.error ≡ none → length r.0.output ≤ max)
    → (gated v command r).0.error ≡ none
    → length (gated v command r).0.output ≤ max
gated-le max command r allowed h k = h k
gated-le max command r (fault f) h k = cc

custom_vm-le :
    (e : Executor) (os_type command : Str)
    → (execute_custom_vm_command e os_type command).0.error ≡ none
    → length (execute_custom_vm_command e os_type command).0.output ≤ e.max_output_size
unfolding execute_custom_vm_command
custom_vm-le e os_type command h = elim (Bool-cases e.has_api_client) [
  | inl y ↦ rw y (agent_result-le e.max_output_size command answer answer.failure (rw y at h))
  | inr n ↦ absurd (missing n)
]
  where
    answer : Answer
    answer = e.answers (guest_agent (build_guest_agent_command (detect_os_family os_type) command))

    missing : e.has_api_client ≡ false → ⊥
    missing n = ground arith

limit_or_error :
    (max : ℕ) (r : ExecutionResult) → (r.error ≡ none → length r.output ≤ max) → WithinLimit max r
limit_or_error max r h = elim (Option-cases r.error) [
  | inl n ↦ inr (h n)
  | inr (f, p) ↦ inl (rw p refl)
]

-- On every target the result of a whitelisted command is an error, or its output is within the
-- configured limit.
execute_command-WithinLimit :
    (e : Executor) (host os_type : Str) (id : ℤ) (command : Str)
    → WithinLimit e.max_output_size (execute_host_command e host command).0
      × WithinLimit e.max_output_size (execute_container_command e host id command).0
      × WithinLimit e.max_output_size (execute_vm_command e os_type command).0
unfolding execute_host_command execute_container_command execute_vm_command
execute_command-WithinLimit e host os_type id command = (
  limit_or_error _ (execute_host_command e host command).0 (
      gated-le e.max_output_size command (execute_custom_host_command e host command) _
        (ssh_result-le e.max_output_size command (e.answers (ssh_command host command)) _)),
  limit_or_error _ (execute_container_command e host id command).0 (
      gated-le e.max_output_size command (execute_custom_container_command e host id command) _
        (ssh_result-le e.max_output_size command (e.answers (ssh_container host id command)) _)),
  limit_or_error _ (execute_vm_command e os_type command).0 (
      gated-le e.max_output_size command (execute_custom_vm_command e os_type command) _
        (custom_vm-le e os_type command)),
)

first_allowed :
    (patterns : List Str) (command : Str) → check_allowed (command ∷ patterns) command ≡ allowed
unfolding check_allowed matches_pattern
first_allowed patterns command = rw (str_eq_refl command)

-- A command that is added for the hosts or the containers passes there from then on.
add_to_whitelist-allowed :
    (config : AllowedCommands) (command : Str)
    → (validate_command (add_to_whitelist config TargetType.host command) TargetType.host command
        ≡ allowed)
      × (validate_command
            (add_to_whitelist config TargetType.container command)
            TargetType.container
            command
          ≡ allowed)
unfolding validate_command add_to_whitelist
add_to_whitelist-allowed config command =
    (first_allowed config.host command, first_allowed config.container command)

or_default_ne : (l d d' : List Str) → l ≢ [] → or_default l d ≡ or_default l d'
or_default_ne [] d d' h = absurd (h refl)
or_default_ne (c ∷ l) d d' h = refl

-- A command that is added for the guests has no effect on a guest whose operating system has a
-- whitelist of its own.
pub add_to_whitelist_shadowed :
    (config : AllowedCommands) (os_type command other : Str)
    → ((detect_os_family os_type ≡ OsFamily.linux) × (config.vm_linux ≢ []))
      ⊎ ((detect_os_family os_type ≡ OsFamily.windows) × (config.vm_windows ≢ []))
    → validate_vm_command (add_to_whitelist config TargetType.vm command) os_type other
      ≡ validate_vm_command config os_type other
unfolding validate_vm_command add_to_whitelist allowed_commands_for_vm allowed_for_family
add_to_whitelist_shadowed config os_type command other (inl (e, h)) =
    rw (e, or_default_ne config.vm_linux (command ∷ config.vm) config.vm h)
add_to_whitelist_shadowed config os_type command other (inr (e, h)) =
    rw (e, or_default_ne config.vm_windows (command ∷ config.vm) config.vm h)
