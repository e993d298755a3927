-- ===== src/CommandRunner.antt =====
-- internal/plugins/command-runner: the command whitelist, its templates and the executor.
pub mod Template
pub mod Validator
pub mod Executor
pub mod Tests
