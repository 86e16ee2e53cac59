-- ===== src/Sender.antt =====
-- The worker's sender: the Telegram side of the delivery.
pub mod Errors
pub mod Probe
pub mod Calls
