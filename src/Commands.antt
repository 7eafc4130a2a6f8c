-- ===== src/Commands.antt =====
-- internal/commands: the commands that the server may run on the gateway.
pub mod CommandLine
pub mod Execution
