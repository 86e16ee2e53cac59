-- ===== src/Exec.antt =====
-- Coroutines that read and write a state and may raise: what was written before a raise stays
-- written, so the state comes back beside the exception too.
mod Monad
pub mod Keeps
pub mod Laws
unfoldable pub use Monad.*
