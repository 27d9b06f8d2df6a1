-- ===== src/Db.antt =====
-- The metadata database (db/): object rows and the queries over them.
pub mod Prefix
pub mod Query
pub mod Objects
pub mod Listing
pub mod Versions
pub mod Multipart
pub mod Expiry
