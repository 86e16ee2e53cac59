-- ===== src/Providers.antt =====
-- app/infrastructure/providers/youtube.py and instagram.py: what the user may choose.
pub mod Youtube
pub mod Formats
pub mod Choice
pub mod Audio
pub mod Best
pub mod Instagram
pub mod Cookies
