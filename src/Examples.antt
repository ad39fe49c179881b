-- ===== src/Examples.antt =====
-- The theorems applied at concrete inputs.
mod Buffers
mod Lines
mod Caches
mod Sessions
mod Containers
mod Messages
mod Ops
mod Rings
mod Pools
mod Strings
mod Uring
