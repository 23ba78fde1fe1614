-- ===== src/Server.antt =====
-- src/ipc/server.rs and src/ipc/protocol.rs: what the request server does with a connection.
mod Protocol
mod Shared
mod Token
mod Secrets
mod Login
mod Credentials
mod Handler
mod Limits
mod Endpoint
pub mod TokenLaws
pub mod Answers
pub mod AwsAnswers
pub mod Authentic
pub mod LimitLaws
pub mod EndpointLaws
pub mod Tests
unfoldable pub use Protocol.*
unfoldable pub use Shared.*
unfoldable pub use Token.*
unfoldable pub use Secrets.*
unfoldable pub use Login.*
unfoldable pub use Credentials.*
unfoldable pub use Handler.*
unfoldable pub use Limits.*
unfoldable pub use Endpoint.*
