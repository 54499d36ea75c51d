-- ===== src/Agent/Runner.antt =====
-- agent/agent.go: one pass of the daemon over one feed.
pub mod Defs
pub mod Marks
pub mod Crank
pub mod Submit
pub mod Tick
pub mod Samples
mod Tests
