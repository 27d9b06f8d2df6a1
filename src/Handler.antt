-- ===== src/Handler.antt =====
-- The request handlers of handler/.
pub mod Access
pub mod Ranges
pub mod Validation
pub mod Conditional
pub mod Chunked
pub mod Objects
pub mod Payload
pub mod Multipart
pub mod Versions
