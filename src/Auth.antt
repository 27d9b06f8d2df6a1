-- ===== src/Auth.antt =====
-- AWS Signature V4 (auth/): the parsing of credentials and the verification of signatures.
pub mod Result
pub mod SigTime
pub mod Request
pub mod Parsing
pub mod Canonical
pub mod Verify
