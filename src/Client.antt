-- ===== src/Client.antt =====
-- src/ipc/client.rs and src/bin/secretd.rs and src/paths.rs: the command line and its requests.
mod Request
mod Mode
mod Paths
pub mod RoundTrip
pub mod ModeLaws
pub mod Tests
unfoldable pub use Request.*
unfoldable pub use Mode.*
unfoldable pub use Paths.*
