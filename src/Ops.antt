-- ===== src/Ops.antt =====
-- The callback runtime of libs/coio-core/src/runtime.rs.
pub mod Arena
pub mod Ids
pub mod Stack
pub mod Slots
pub mod Cancels
pub mod Table
pub mod Cancel
pub mod Callback
pub mod Complete
pub mod Drive
