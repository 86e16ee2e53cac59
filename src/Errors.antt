-- ===== src/Errors.antt =====
-- app/exceptions.py: the exception classes, with the attributes that they inherit along the MRO.
mod Classes
mod Result
pub mod Reason
unfoldable pub use Classes.*
pub use Result.{Result as Outcome, returned, raised}
