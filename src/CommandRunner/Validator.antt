-- ===== src/CommandRunner/Validator.antt =====
-- internal/plugins/command-runner/validator.go and os_detection.go.
pub mod Structure
pub mod Whitelist
use pvetui.Base.{
  ℕ, List, [], ◌∷◌, ◌++◌, Option, none, some, Bool, true, false, Str, str, str_eq, if◌then◌else◌,
  ◌==◌, has_prefix, cut, to_lower, length, ◌⊎◌,
}
use pvetui.CommandRunner.Template.{CommandTemplate, parse_template}

pub data TargetType : Type 0 where
  host container vm : TargetType
  other : Str → TargetType

pub record AllowedCommands : Type 0 where
  pub host : List Str
  pub container : List Str
  pub vm : List Str
  pub vm_linux : List Str
  pub vm_windows : List Str

-- A rejection, or the panic of an index that is out of range.
pub data Fault : Type 0 where
  invalid_target : Str → Fault
  not_in_whitelist : Fault
  index_out_of_range : Fault

pub data Verdict : Type 0 where
  allowed : Verdict
  fault : Fault → Verdict

abbrev pub flush : Str → List Str → List Str
flush [] parts = parts
flush (c ∷ s) parts = (c ∷ s) ∷ parts

unfoldable pub split_scan : Bool → Str → Str → List Str
split_scan in_param current [] = flush current []
split_scan in_param current (c ∷ s) =
    let opened = flush current (split_scan true [] s) in
    let closed = split_scan false current s in
    let skipped = split_scan true current s in
    let taken = split_scan false (current ++ c ∷ []) s in
    if c == b'{' then opened else if c == b'}' then closed else if in_param then skipped else taken

unfoldable pub split_template : Str → List Str
unfolding split_scan
split_template template = split_scan false [] template

-- Each part exists in order; an empty part is skipped.
unfoldable pub match_parts : List Str → Str → Bool
match_parts [] s = true
match_parts (part ∷ parts) s = elim (cut s part) [
  | none ↦ false
  | some rest ↦ match_parts parts rest
]

abbrev pub has_parts : List Str → Str → Option Bool
has_parts [] command = none
has_parts (part ∷ parts) command =
    if has_prefix command part then some (match_parts (part ∷ parts) command) else some false

-- none is the panic of `parts[0]` on a template with no static text.
unfoldable pub matches_template_structure : Str → Str → Option Bool
unfolding match_parts split_template
matches_template_structure command template = has_parts (split_template template) command

abbrev pub is_empty {ℓ} : {A : Type ℓ} → List A → Bool
is_empty [] = true
is_empty (x ∷ xs) = false

unfoldable pub matches_pattern : Str → Str → Option Bool
unfolding matches_template_structure
matches_pattern command pattern =
    if str_eq command pattern
    then some true
    else if is_empty (parse_template pattern).parameters
    then some false
    else matches_template_structure command pattern

abbrev pub verdict_or : Option Bool → Verdict → Verdict
verdict_or none later = fault index_out_of_range
verdict_or (some true) later = allowed
verdict_or (some false) later = later

unfoldable pub check_allowed : List Str → Str → Verdict
unfolding matches_pattern
check_allowed [] command = fault not_in_whitelist
check_allowed (pattern ∷ rest) command =
    verdict_or (matches_pattern command pattern) (check_allowed rest command)

unfoldable pub validate_command : AllowedCommands → TargetType → Str → Verdict
unfolding check_allowed
validate_command config host command = check_allowed config.host command
validate_command config container command = check_allowed config.container command
validate_command config vm command = check_allowed config.vm command
validate_command config (other t) command = fault (invalid_target t)

unfoldable pub get_allowed_commands : AllowedCommands → TargetType → List Str
get_allowed_commands config host = config.host
get_allowed_commands config container = config.container
get_allowed_commands config vm = config.vm
get_allowed_commands config (other t) = []

pub data OsFamily : Type 0 where
  unknown linux windows : OsFamily

unfoldable pub detect_os_family : Str → OsFamily
detect_os_family [] = unknown
detect_os_family (c ∷ s) =
    let lower = to_lower (c ∷ s) in
    if has_prefix lower (str "win")
    then windows
    else if has_prefix lower (str "l")
    then linux
    else unknown

abbrev pub or_default : List Str → List Str → List Str
or_default [] default = default
or_default (c ∷ cs) default = c ∷ cs

unfoldable pub allowed_for_family : AllowedCommands → OsFamily → List Str
allowed_for_family config windows = or_default config.vm_windows config.vm
allowed_for_family config linux = or_default config.vm_linux config.vm
allowed_for_family config unknown = config.vm

unfoldable pub allowed_commands_for_vm : AllowedCommands → Str → List Str
unfolding allowed_for_family detect_os_family
allowed_commands_for_vm config os_type = allowed_for_family config (detect_os_family os_type)

unfoldable pub validate_vm_command : AllowedCommands → Str → Str → Verdict
unfolding allowed_commands_for_vm check_allowed
validate_vm_command config os_type command =
    check_allowed (allowed_commands_for_vm config os_type) command
