-- ===== src/Request.antt =====
-- convert.go, openai.go and responses.go: how the requests of the three protocols become messages of
-- the upstream service.
pub mod Message
pub mod Marker
pub mod Messages
pub mod Input
