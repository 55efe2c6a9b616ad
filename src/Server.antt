-- ===== src/Server.antt =====
-- proxy.go and main.go: what the handlers share.
pub mod Session
pub mod Access
pub mod Guarded
pub mod Catalog
pub mod Failures
