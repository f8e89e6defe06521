-- ===== src/Daemon.antt =====
-- native/agentseatd.c: the daemon of a session. It admits requests, keeps who may write, which
-- windows the agent may use, the operation in progress and the messages of the collaborators.
pub mod State
pub mod Names
pub mod Params
pub mod Leases
pub mod Messages
pub mod Control
pub mod Authority
pub mod Typing
pub mod Sync
pub mod Methods
pub mod Steps
pub mod OneOperation
pub mod Moves
pub mod Granted
pub mod Requests
pub mod Fencing
pub mod Turns
pub mod Runs
pub mod Stops
pub mod Exclusion
pub mod Actions
pub mod Start
pub mod Commit
pub mod Sends
pub mod Refusals
pub mod Begun
pub mod Clients
pub mod Lines
pub mod Answers
mod ClientTests
mod BegunTests
mod Tests
