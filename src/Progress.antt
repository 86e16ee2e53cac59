-- ===== src/Progress.antt =====
-- The live progress of a download: the worker writes frames to Redis, the bot shows them.
pub mod Channel
pub mod Feed
pub mod Caption
pub mod Reporter
pub mod Shown
pub mod Updater
pub mod Events
pub mod Stable
pub mod Handlers
pub mod Registry
pub mod Watchdog
pub mod Terminal
pub mod Tombstones
pub mod Failed
pub mod Stale
