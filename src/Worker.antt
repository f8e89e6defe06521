-- ===== src/Worker.antt =====
-- native/agentseat-semantic.c: the worker that prepares a semantic action and sends it once.
pub mod Process
pub mod Identity
pub mod State
pub mod Prepare
pub mod Callbacks
pub mod Calls
pub mod Steps
pub mod Phases
pub mod Progress
pub mod Requests
pub mod Runs
pub mod Commits
pub mod Deadline
pub mod Status
mod Tests
