-- ===== src/Daemon.antt =====
-- core/daemon/daemon.go: the daemon that switches gadgets.
pub mod Spec
pub mod State
pub mod Leds
pub mod Apply
pub mod Requests
pub mod Events
pub mod Invariant
pub mod System
