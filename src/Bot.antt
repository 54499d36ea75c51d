-- ===== src/Bot.antt =====
-- bot: the notifier and cranker.
pub mod Chain
pub mod Config
pub mod Text
pub mod State
pub mod Scan
pub mod Format
pub mod Crank
pub mod Remind
pub mod Tick
mod Samples
mod Tests
