-- ===== src/Verify.antt =====
-- src/verify.rs: what gpgv's status lines mean, and when a tarball counts as verified.
pub mod Status
pub mod Address
pub mod Tarball
pub mod Timeout
mod Tests
