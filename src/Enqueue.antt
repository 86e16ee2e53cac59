-- ===== src/Enqueue.antt =====
-- The two ways in which the bot hands a job to the worker.
pub mod Release
pub mod UseCase
pub mod Instant
pub mod Slots
pub mod Channels
