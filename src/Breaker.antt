-- ===== src/Breaker.antt =====
-- The circuit breaker of each upstream host: app/infrastructure/cache/redis_circuit_breaker.py.
pub mod Calls
pub mod Machine
pub mod Steps
pub mod Refines
pub mod Hosts
pub mod Effects
