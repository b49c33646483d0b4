-- ===== src/System.antt =====
-- src/system.rs: installed kernels, their versions and health, and whether a kernel may be installed.
pub mod Versions
pub mod Prune
pub mod Signing
pub mod Gate
pub mod Health
pub mod BootPath
pub mod Query
mod Tests
