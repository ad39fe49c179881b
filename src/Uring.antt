-- ===== src/Uring.antt =====
-- The io_uring backend of libs/coio-uring/src: the names of its completions, the ring, the ends of its
-- operations, and the arguments of a message operation.
pub mod UserData
pub mod Driver
pub mod Message
