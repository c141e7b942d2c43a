-- ===== src/Base.antt =====
-- core/base: files under a fixed path, and the test of such a path.
pub mod Subpath
pub mod PathChecker
