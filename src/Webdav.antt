-- ===== src/Webdav.antt =====
-- The WebDAV entry (webdav/): its authentication.
pub mod Limiter
pub mod BasicAuth
