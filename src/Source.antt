-- ===== src/Source.antt =====
-- src/source.rs: the kernel version of a tree, and what a source tarball may hold.
pub mod Version
pub mod Makefile
pub mod Archive
pub mod Tarball
mod Tests
