-- ===== src/Server.antt =====
-- crates/drivewire-server/src/lib.rs: the server's state, the handlers, and the session loop.
pub mod State
pub mod Session
pub mod Handlers
pub mod Run
pub mod Actions
pub mod Attach
pub mod Sessions
pub mod Awaits
pub mod Listeners
