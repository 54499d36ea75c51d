-- ===== src/Gnochain.antt =====
-- internal/gnochain: the chain layer the tools share.
mod Tests
pub mod Schedule
pub mod Commitment
pub mod Results
pub mod Views
pub mod Broadcast
pub mod Events
pub mod Client
pub mod Rpc
