-- ===== src/Controller.antt =====
-- src/controller.rs: the requests of clients, the decisions on them, the grants and the history.
mod State
mod Audit
mod Boundary
mod Requests
mod AwsRequests
mod AwsGrants
mod Session
mod Vaulted
pub mod Release
pub mod Respond
pub mod Covered
pub mod Told
pub mod Locking
pub mod AwsAnswers
pub mod AwsMemory
pub mod History
pub mod Consistent
pub mod ConsistentAws
pub mod Requested
pub mod ConsistentOwner
pub mod Reachable
pub mod Answered
pub mod Tests
unfoldable pub use State.*
unfoldable pub use Audit.*
unfoldable pub use Boundary.*
unfoldable pub use Requests.*
unfoldable pub use AwsRequests.*
unfoldable pub use AwsGrants.*
unfoldable pub use Session.*
unfoldable pub use Vaulted.*
