-- ===== src/Build.antt =====
-- src/build.rs: configuring a tree, building it into packages, and publishing them.
pub mod Manifest
pub mod Publish
pub mod Texts
pub mod Sets
pub mod Request
pub mod Control
pub mod Run
pub mod Finish
pub mod Devices
pub mod Configure
pub mod Prepare
mod Tests
