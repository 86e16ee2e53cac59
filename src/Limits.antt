-- ===== src/Limits.antt =====
-- Rate limits at the bot's edge: app/domain/rate_limit.py, app/application/services/rate_limit.py
-- and app/infrastructure/cache/redis_rate_limit_gate.py.
pub mod Window
pub mod Gate
pub mod Admission
pub mod Keys
pub mod Layers
pub mod Notices
pub mod Config
