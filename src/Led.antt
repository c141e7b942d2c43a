-- ===== src/Led.antt =====
-- core/led: LED modes and the interpreter that plays them.
pub mod Mode
pub mod Interpreter
pub mod Device
