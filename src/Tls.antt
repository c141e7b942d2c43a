-- ===== src/Tls.antt =====
-- core/daemon/domain_filter.go and tls_service.go: which names may get a certificate, and for how
-- long.
pub mod Names
pub mod Filter
pub mod Service
pub mod Leaf
