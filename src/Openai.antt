-- ===== src/Openai.antt =====
-- openai.go: the replies of chat completions, streamed and collected.
pub mod Index
pub mod Reply
