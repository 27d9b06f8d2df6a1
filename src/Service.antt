-- ===== src/Service.antt =====
-- The object service (service/objects.go): object operations over the metadata and the files.
pub mod Errors
pub mod Objects
pub mod Quota
pub mod Writes
