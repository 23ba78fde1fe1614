-- ===== src/Vault.antt =====
-- src/vault.rs: the encrypted vault. Cryptography, encodings and JSON are the parameter `Platform`;
-- the results of system calls during one operation are the parameter `Host`.
mod Defs
mod Names
mod Entries
mod File
mod Store
pub mod Trim
pub mod NameLaws
pub mod Atomic
pub mod Secrets
pub mod Renaming
pub mod Ordered
pub mod Specification
pub mod Refinement
mod Reopen
pub mod Reopened
pub mod Failures
pub mod Sample
pub mod Tests
unfoldable pub use Defs.*
unfoldable pub use Names.*
unfoldable pub use Entries.*
unfoldable pub use File.*
unfoldable pub use Store.*
