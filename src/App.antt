-- ===== src/App.antt =====
-- app.go and native_local.go: the life of the process and the guard in front of its handlers.
pub mod Guard
pub mod Config
pub mod Run
pub mod Lifecycle
