-- ===== src/Buffers.antt =====
-- The runtime's buffer pools (libs/coio-uring/src): size classes and packed buffer ids, the
-- borrow counts of the slots, the slabs that hand the slots out, and the pools over the slabs.
pub mod Classes
pub mod Tracker
pub mod Views
pub mod Fixed
pub mod Provided
pub mod Pools
pub mod Routing
pub mod Refs
pub mod Slices
pub mod Alloc
