-- ===== src/Cli.antt =====
-- internal/cli/cli.go: the arguments of the commands, and the choice of a workflow by a selector.
pub mod Args
pub mod Select
pub mod Commands
