-- ===== src/Anthropic.antt =====
-- proxy.go: the conversion of an upstream chunk stream into the Anthropic Messages protocol.
pub mod Event
pub mod Stream
pub mod Session
pub mod Collect
