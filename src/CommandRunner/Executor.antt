-- ===== src/CommandRunner/Executor.antt =====
-- internal/plugins/command-runner/executor.go. A call of the SSH client or of the guest agent is in
-- the list of calls that each method returns; what the other side answers is a function of the call.
-- Durations and deadlines are not modelled. A negative output limit, which Config.Validate refuses,
-- is not represented.
pub mod Gate
use pvetui.Base.{
  ℕ, zero, suc, List, [], ◌∷◌, ◌++◌, Option, none, some, Bool, true, false, Str, str, str_eq,
  if◌then◌else◌, ltb, length, take, ℤ, pos, Dict,
}
use pvetui.CommandRunner.Template.{
  CommandTemplate, parse_template, Filled, filled, refused, FillError, fill_template,
}
use pvetui.CommandRunner.Validator.{
  Verdict, allowed, fault, Fault, AllowedCommands, TargetType, OsFamily, detect_os_family,
  validate_command, validate_vm_command,
}

pub data ExecError : Type 0 where
  rejected : Fault → ExecError
  execution_failed : Str → ExecError
  no_api_client : ExecError
  template_error : FillError → ExecError
  wrong_target : ExecError
  unknown_target : Str → ExecError

pub record ExecutionResult : Type 0 where
  pub command : Str
  pub output : Str
  pub error : Option ExecError
  pub exit_code : ℤ
  pub truncated : Bool

-- A call that leaves the program.
pub data Remote : Type 0 where
  ssh_command : Str → Str → Remote
  ssh_container : Str → ℤ → Str → Remote
  guest_agent : List Str → Remote

-- The answer of the other side: stdout, stderr, exit code, error.
pub record Answer : Type 0 where
  pub stdout : Str
  pub stderr : Str
  pub code : ℤ
  pub failure : Option Str

pub record Executor : Type 0 where
  pub allowed_commands : AllowedCommands
  pub max_output_size : ℕ
  pub has_api_client : Bool
  pub answers : Remote → Answer

-- A method's result and the calls that it made.
abbrev pub Run : Type 0
Run = ExecutionResult × List Remote

abbrev pub failed_result : Str → ExecError → ExecutionResult
failed_result command e = record {
  command = command;
  output = [];
  error = some e;
  exit_code = pos 0;
  truncated = false;
}

-- The output is cut at the limit.
unfoldable pub limited : ℕ → Str → ℤ → Str → ExecutionResult
limited max command code output =
    if ltb max (length output)
    then record {
      command = command;
      output = take max output;
      error = none;
      exit_code = code;
      truncated = true;
    }
    else record {
      command = command;
      output = output;
      error = none;
      exit_code = code;
      truncated = false;
    }

unfoldable pub ssh_result : ℕ → Str → Answer → Option Str → ExecutionResult
unfolding limited
ssh_result max command a (some e) = failed_result command (execution_failed e)
ssh_result max command a none = limited max command (pos 0) a.stdout

unfoldable pub execute_custom_host_command : Executor → Str → Str → Run
unfolding ssh_result
execute_custom_host_command e host command =
    let call = ssh_command host command in
    (ssh_result e.max_output_size command (e.answers call) (e.answers call).failure, call ∷ [])

unfoldable pub execute_custom_container_command : Executor → Str → ℤ → Str → Run
unfolding ssh_result
execute_custom_container_command e host id command =
    let call = ssh_container host id command in
    (ssh_result e.max_output_size command (e.answers call) (e.answers call).failure, call ∷ [])

-- What the whitelisted methods do first; a panic of the matcher ends the method too.
abbrev pub gated : Verdict → Str → Run → Run
gated allowed command run = run
gated (fault f) command run = (failed_result command (rejected f), [])

unfoldable pub execute_host_command : Executor → Str → Str → Run
unfolding execute_custom_host_command
execute_host_command e host command =
    gated (validate_command e.allowed_commands TargetType.host command) command
      (execute_custom_host_command e host command)

unfoldable pub execute_container_command : Executor → Str → ℤ → Str → Run
unfolding execute_custom_container_command
execute_container_command e host id command =
    gated (validate_command e.allowed_commands TargetType.container command) command
      (execute_custom_container_command e host id command)

unfoldable pub build_guest_agent_command : OsFamily → Str → List Str
build_guest_agent_command OsFamily.windows command =
    str "powershell.exe"
    ∷ str "-NoProfile"
    ∷ str "-NonInteractive"
    ∷ str "-ExecutionPolicy"
    ∷ str "Bypass"
    ∷ str "-Command"
    ∷ command
    ∷ []
build_guest_agent_command family command = str "/bin/sh" ∷ str "-c" ∷ command ∷ []

-- stdout + "\n--- stderr ---\n" + stderr, where there is stderr
unfoldable pub combined : Str → Str → Str
combined stdout [] = stdout
combined stdout (c ∷ stderr) = stdout ++ ((10 ∷ str "--- stderr ---") ++ (10 ∷ c ∷ stderr))

-- On an error the output is stderr, uncut.
unfoldable pub agent_result : ℕ → Str → Answer → Option Str → ExecutionResult
unfolding limited combined
agent_result max command a (some e) = record {
  command = command;
  output = a.stderr;
  error = some (execution_failed e);
  exit_code = a.code;
  truncated = false;
}
agent_result max command a none = limited max command a.code (combined a.stdout a.stderr)

unfoldable pub execute_custom_vm_command : Executor → Str → Str → Run
unfolding agent_result build_guest_agent_command
execute_custom_vm_command e os_type command =
    let call = guest_agent (build_guest_agent_command (detect_os_family os_type) command) in
    if e.has_api_client
    then (
      agent_result e.max_output_size command (e.answers call) (e.answers call).failure,
      call ∷ [],
    )
    else (failed_result command no_api_client, [])

unfoldable pub execute_vm_command : Executor → Str → Str → Run
unfolding execute_custom_vm_command
execute_vm_command e os_type command =
    gated (validate_vm_command e.allowed_commands os_type command) command
      (execute_custom_vm_command e os_type command)

abbrev pub when_filled : Str → Filled → (Str → Run) → Run
when_filled template (refused e) k = (failed_result template (template_error e), [])
when_filled template (filled command) k = k command

abbrev pub for_target : Executor → TargetType → Str → Str → Run
for_target e TargetType.host host command = execute_host_command e host command
for_target e TargetType.container host command = (failed_result command wrong_target, [])
for_target e TargetType.vm host command = (failed_result command wrong_target, [])
for_target e (TargetType.other t) host command = (failed_result command (unknown_target t), [])

unfoldable pub execute_templated_command : Executor → TargetType → Str → Str → Dict Str → Run
execute_templated_command e target host template params =
    when_filled template (fill_template (parse_template template) params) (for_target e target host)

unfoldable pub execute_templated_container_command : Executor → Str → ℤ → Str → Dict Str → Run
execute_templated_container_command e host id template params =
    when_filled template (fill_template (parse_template template) params)
      (execute_container_command e host id)

unfoldable pub execute_templated_vm_command : Executor → Str → Str → Dict Str → Run
execute_templated_vm_command e os_type template params =
    when_filled template (fill_template (parse_template template) params)
      (execute_vm_command e os_type)

unfoldable pub add_to_whitelist : AllowedCommands → TargetType → Str → AllowedCommands
add_to_whitelist config TargetType.host command = record config { host = command ∷ config.host }
add_to_whitelist config TargetType.container command = record config {
  container = command ∷ config.container;
}
add_to_whitelist config TargetType.vm command = record config { vm = command ∷ config.vm }
add_to_whitelist config (TargetType.other t) command = config
