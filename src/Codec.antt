-- ===== src/Codec.antt =====
-- The codecs of the upstream protocol: native_body_codec.go, native_codec_helpers.go,
-- native_credential.go, native_model_cache.go and native_uuid.go.
pub mod Base64
pub mod Body
pub mod Padding
pub mod Errors
pub mod Credential
pub mod Uuid
