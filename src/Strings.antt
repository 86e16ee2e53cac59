-- ===== src/Strings.antt =====
-- Python's string methods, as far as several parts use them.
pub mod Trim
pub mod Cut
pub mod Digits
