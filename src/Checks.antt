-- ===== src/Checks.antt =====
-- Concrete runs of the program's parts.
mod Data
mod Jobs
mod Links
mod Limits
mod Store
mod Breaker
mod Bot
mod Cleanup
mod Worker
mod Progress
mod Handler
