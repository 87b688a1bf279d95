-- ===== src/Storage.antt =====
-- engine/storage: pages, and the pool of frames that holds them in memory.
pub mod Buffer
pub mod Page
