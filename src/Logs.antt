-- ===== src/Logs.antt =====
-- Log storage and streaming of libs/core/src/daemon.rs: the ring of lines, the follow pipes, and
-- the cutting of a byte stream into lines and write chunks.
pub mod Cache
pub mod Gateway
pub mod Lines
