-- ===== src/Storage.antt =====
-- The file store (storage/): where an object's bytes lie.
pub mod KeyPath
pub mod Files
pub mod Parts
