-- ===== src/Usb/Adb.antt =====
-- core/usb/adb.go: the ADB function: the account and the environment that adbd runs with, and the
-- launch of adbd.
pub mod Identity
pub mod Envs
pub mod Effect
