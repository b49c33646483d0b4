-- ===== src/Ui.antt =====
-- src/ui.rs: the state of the window, what its handlers do to it, and the texts that it shows. The
-- widgets are left out.
pub mod Messages
pub mod State
pub mod Same
pub mod Handlers
pub mod Answers
pub mod Steps
pub mod Guarded
pub mod Trusted
pub mod Buttons
pub mod Rows
mod Tests
