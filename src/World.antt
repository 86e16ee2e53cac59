-- ===== src/World.antt =====
-- What the worker's coroutines run in: the values that they pass, the ports of the outside and the
-- shared state, and the elementary actions on them.
pub mod Values
pub mod Ports
pub mod Actions
pub mod Calm
