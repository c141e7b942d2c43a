-- ===== src/Tests.antt =====
-- Concrete data, and each theorem at a concrete input.
pub mod Data
mod Ipc
mod Led
mod Input
mod Daemon
mod System
mod Turns
mod Rndis
mod Adb
mod LedFiles
mod Tls
