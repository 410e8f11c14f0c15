-- ===== src/Cli.antt =====
-- cmd/gopm/main.go: the command line.
pub mod Args
pub mod Shell
pub mod Launch
pub mod Start
pub mod Commands
pub mod Main
pub mod Table
pub mod Check
pub mod Texts
pub mod Extras
