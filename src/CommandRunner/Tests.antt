-- ===== src/CommandRunner/Tests.antt =====
-- Runs of the command runner at concrete inputs, and the theorems applied there.
use pvetui.Base.{
  [], ◌∷◌, none, some, true, Str, str, str_eq, ◌≡◌, ◌≢◌, refl, pos, get, inl, inr, ◌⊎◌, ◌↔◌, Elem,
  Dict, cut, has_prefix, contains, replace_all, to_lower,
}
use pvetui.CommandRunner.Template.{parse_template, filled, refused, FillError, fill_template}
use pvetui.CommandRunner.Template.Filling.{IsClean, substituted, Refuses, fill_template_cases}
use pvetui.CommandRunner.Validator.{
  AllowedCommands, TargetType, allowed, validate_command, validate_vm_command,
  matches_template_structure, matches_pattern, split_template, get_allowed_commands,
  detect_os_family, OsFamily,
}
use pvetui.CommandRunner.Validator.Structure.{Fits, matches_template_structure_iff}
use pvetui.CommandRunner.Validator.Whitelist.{Admits, validate_command-Admits}
use pvetui.CommandRunner.Executor.{
  Executor, ssh_command, ssh_container, execute_host_command, execute_container_command,
  add_to_whitelist,
}
use pvetui.CommandRunner.Executor.Gate.{Gated, execute_command-Gated, add_to_whitelist_shadowed}

abbrev status_template : Str
status_template = str "systemctl status {service}"

abbrev config : AllowedCommands
config = record {
  host = str "uptime" ∷ status_template ∷ [];
  container = str "uptime" ∷ [];
  vm = str "who" ∷ [];
  vm_linux = str "uptime" ∷ [];
  vm_windows = [];
}

abbrev nginx : Dict Str
nginx = (str "service", str "nginx") ∷ []

status_parts :
    (split_template status_template ≡ str "systemctl status " ∷ [])
    × ((parse_template status_template).parameters ≡ str "service" ∷ [])
unfolding split_template parse_template
status_parts = (refl, refl)

status_passes :
    matches_template_structure (str "systemctl status nginx") status_template ≡ some true
unfolding matches_template_structure has_prefix cut
status_passes = refl

filled_status :
    fill_template (parse_template status_template) nginx ≡ filled (str "systemctl status nginx")
unfolding fill_template parse_template get str_eq contains replace_all
filled_status = refl

matches_template_structure_iff_example :
    (matches_template_structure (str "systemctl status nginx") status_template ≡ some true)
    ↔ Fits (split_template status_template) (str "systemctl status nginx")
matches_template_structure_iff_example =
    matches_template_structure_iff (str "systemctl status nginx") status_template

uptime_passes : validate_command config TargetType.host (str "uptime") ≡ allowed
unfolding validate_command str_eq
uptime_passes = refl

validate_command-Admits_example :
    (pattern : Str) × Elem pattern (get_allowed_commands config TargetType.host)
    × Admits pattern (str "uptime")
validate_command-Admits_example =
    validate_command-Admits config TargetType.host (str "uptime") uptime_passes

container_safe :
    (p : Str)
    → Elem p (get_allowed_commands config TargetType.container)
    → matches_pattern (str "uptime") p ≢ none
unfolding get_allowed_commands matches_pattern str_eq
container_safe p (inl e) h = some_not_none (rw (← e) at h)
  where
    some_not_none : some true ≡ none → ⊥
    some_not_none k = cc
container_safe p (inr e) h = absurd e

uptime_listed : Elem (str "uptime") (get_allowed_commands config TargetType.container)
unfolding get_allowed_commands
uptime_listed = inl refl

fill_template_cases_example :
    ((fill_template (parse_template status_template) nginx
        ≡ filled (
            substituted nginx
              (parse_template status_template).parameters
              (parse_template status_template).template))
      × ((p : Str) → Elem p (parse_template status_template).parameters → IsClean nginx p))
    ⊎ ((e : FillError) × (fill_template (parse_template status_template) nginx ≡ refused e)
        × Refuses nginx (parse_template status_template).parameters e)
fill_template_cases_example = fill_template_cases (parse_template status_template) nginx

abbrev executor : Executor
executor = record {
  allowed_commands = config;
  max_output_size = 4;
  has_api_client = true;
  answers = λ call. record { stdout = str "up 3 days"; stderr = []; code = pos 0; failure = none };
}

uptime_truncated : (execute_host_command executor (str "pve1") (str "uptime")).0.output ≡ str "up 3"
unfolding execute_host_command validate_command str_eq
uptime_truncated = refl

execute_command-Gated_example :
    Gated config TargetType.host
      (str "uptime")
      (ssh_command (str "pve1") (str "uptime"))
      (execute_host_command executor (str "pve1") (str "uptime"))
    × Gated config TargetType.container
        (str "uptime")
        (ssh_container (str "pve1") (pos 7) (str "uptime"))
        (execute_container_command executor (str "pve1") (pos 7) (str "uptime"))
execute_command-Gated_example = execute_command-Gated executor (str "pve1") (pos 7) (str "uptime")

linux_guest : detect_os_family (str "l26") ≡ OsFamily.linux
unfolding detect_os_family to_lower has_prefix
linux_guest = refl

-- The command that was added is still refused on a Linux guest.
add_to_whitelist_shadowed_example :
    validate_vm_command (add_to_whitelist config TargetType.vm (str "id")) (str "l26") (str "id")
    ≡ validate_vm_command config (str "l26") (str "id")
add_to_whitelist_shadowed_example =
    add_to_whitelist_shadowed config (str "l26") (str "id") (str "id") (inl (linux_guest, λ e. cc))
