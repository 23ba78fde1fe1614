-- ===== src/Process.antt =====
-- src/process.rs: the identity of a process, the tests on it, the ancestors of a client process,
-- and the check that a connection belongs to the process that it names. The files under /proc are
-- a parameter, `ProcFs`; the commands `ps` and `lsof` of macOS are not modelled.
mod Defs
mod Connection
pub mod Identity
pub mod Ancestors
pub mod Tests
unfoldable pub use Defs.*
unfoldable pub use Connection.*
