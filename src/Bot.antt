-- ===== src/Bot.antt =====
-- The bot's side: the analysis of a link, the keyboard of its options, and the message handler.
pub mod Keyboard
pub mod State
pub mod Analysis
pub mod Link
pub mod Silent
pub mod Placed
pub mod Instant
