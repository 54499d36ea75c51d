-- ===== src/Gnochain/Views.antt =====
-- internal/gnochain/views.go: what the realms' machine views hold, and the readers over them.
pub mod Feeds
pub mod Votes
pub mod Pages
pub mod Readers
