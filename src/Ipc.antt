-- ===== src/Ipc.antt =====
-- core/daemonipc: the framework that dispatches packages to handlers, and the daemon's handlers.
pub mod Core
pub mod Sending
pub mod Server
pub mod Registering
pub mod Answers
pub mod Refused
