-- ===== src/Cli.antt =====
-- cmd/gnoracle: the command line.
pub mod Args
pub mod Votes
pub mod Run
mod Tests
