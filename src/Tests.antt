-- ===== src/Tests.antt =====
-- Runs of the model at concrete inputs.
mod Anthropic
mod Retry
mod Model
mod Codec
mod Requests
mod Replies
mod Auth
mod App
mod Native
mod Runtime
mod Server
