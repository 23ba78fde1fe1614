-- ===== src/Grants.antt =====
-- src/grants.rs: the temporary grants for secrets.
mod Defs
pub mod Bounds
pub mod Lookup
pub mod Listing
pub mod Tests
unfoldable pub use Defs.*
