-- ===== src/Lifecycle.antt =====
-- The lifecycle cleaner (lifecycle/).
pub mod Cleaner
