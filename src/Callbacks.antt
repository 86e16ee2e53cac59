-- ===== src/Callbacks.antt =====
-- The data of Telegram's callback buttons: app/bot/callbacks/codec.py.
pub mod Codec
pub mod RoundTrip
