-- ===== src/Ai.antt =====
-- internal/ai/client.go: the client of the AI backend, and its two callers.
pub mod Clean
pub mod Request
pub mod Chat
pub mod History
pub mod Retry
pub mod Answers
pub mod Typing
