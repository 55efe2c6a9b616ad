-- ===== src/Responses.antt =====
-- responses.go: the replies of the Responses API.
pub mod Event
pub mod Stream
pub mod Collect
