-- ===== src/Agent.antt =====
-- agent: the provider daemon.
mod Tests
pub mod Aggregate
pub mod Scale
pub mod Options
pub mod Config
pub mod Adapters
pub mod Store
pub mod Runner
pub mod Daemon
