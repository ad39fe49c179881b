-- ===== src/Daemon.antt =====
-- The event handlers of libs/core/src/daemon.rs over the runtime's global state.
pub mod State
pub mod Runtime
pub mod Drains
pub mod Sessions
pub mod Output
pub mod Reap
pub mod Frames
pub mod Dispatch
pub mod Requests
pub mod Detached
pub mod Boot
