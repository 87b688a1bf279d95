-- ===== src/Wal.antt =====
-- engine/wal: the write-ahead log and crash recovery.
pub mod Record
pub mod Log
pub mod Recovery
