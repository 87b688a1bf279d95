-- ===== src/Serialization.antt =====
-- engine/serialization: rows as bytes.
pub mod Record
pub mod Version
pub mod Schema
