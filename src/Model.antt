-- ===== src/Model.antt =====
-- The account's models: their context windows (model_context.go) and their names (proxy.go).
pub mod Config
pub mod Context
pub mod Resolver
