-- ===== src/Index.antt =====
-- engine/index: the keys of an index.
pub mod Key
