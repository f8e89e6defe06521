-- ===== src/Input.antt =====
-- native/agentseat-input.c: the daemon's end of the private compositor's Wayland connection. It
-- keeps what the compositor reports, and sends the agent's pointer and keyboard input.
pub mod Platform
pub mod State
pub mod Utf8
pub mod Keymap
pub mod Seat
pub mod Commands
pub mod Calls
pub mod Reach
mod Tests
pub mod Listeners
pub mod Texts
mod Scenes
pub mod Content
