-- ===== src/Native.antt =====
-- native_infer.go, native_context.go, protocol_services.go: how a request for the model is prepared.
pub mod Infer
pub mod Context
