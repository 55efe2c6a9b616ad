-- ===== src/Runtime.antt =====
-- native_runtime_fields.go and native_model_cache.go: the runtime fields of a user, and the cache of
-- models.
pub mod Padding
pub mod Cache
pub mod Fields
