-- ===== src/Server.antt =====
-- The HTTP entry (server/): which handler a request is given to.
pub mod Router
pub mod Resolve
pub mod Masking
