-- ===== src/Daemon/Reap/Drained.antt =====
-- The reaping of a detached container's child against the ends of its output drains.
