-- ===== src/App.antt =====
-- src/app.rs and src/runtime.rs: what the windows do with the controller, without their drawing.
mod Requests
mod Aliases
mod Labels
mod Forms
mod AwsForms
mod Windows
pub mod Oldest
pub mod Offered
pub mod AliasLaws
pub mod Tests
unfoldable pub use Requests.*
unfoldable pub use Aliases.*
unfoldable pub use Labels.*
unfoldable pub use Forms.*
unfoldable pub use AwsForms.*
unfoldable pub use Windows.*
