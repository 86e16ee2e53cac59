-- ===== src/Cleanup.antt =====
-- app/workers/cleanup_worker.py.
pub mod Sweep
pub mod Turns
pub mod Swept
pub mod Cycle
