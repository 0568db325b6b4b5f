-- ===== src/Buffer.antt =====
-- internal/buffer: the queue in memory and the spool on disk.
pub mod Queue
pub mod Spool
