-- ===== src/Cli.antt =====
-- The package internal/cli: the flags and the choice of the command.
pub mod Flags
pub mod Dispatch
pub mod Host
pub mod Steps
pub mod Handlers
pub mod Run
