-- ===== src/Input.antt =====
-- core/input: the button, from key events to taps, long taps and tap chains.
pub mod Device
pub mod Drain
