-- ===== src/Aws.antt =====
-- src/aws.rs: the settings of IAM Identity Center that the vault keeps, and their validation.
mod Defs
mod Check
mod Sdk
mod Token
mod Discovery
mod Credentials
mod Browser
mod Login
pub mod LoginStatus
pub mod Valid
pub mod Accepted
pub mod Configuration
pub mod Renewal
pub mod Callback
pub mod Pages
pub mod Deduplicated
pub mod Discovered
pub mod BrokerTests
pub mod Tests
pub use Defs.*
unfoldable pub use Check.*
unfoldable pub use Sdk.*
unfoldable pub use Token.*
unfoldable pub use Discovery.*
unfoldable pub use Credentials.*
unfoldable pub use Browser.*
unfoldable pub use Login.*
