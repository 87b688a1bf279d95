-- ===== src/Concurrency.antt =====
-- engine/concurrency: locks and snapshots.
pub mod Locks
pub mod Snapshot
