-- ===== src/Llm.antt =====
-- internal/llm: messages, backends and the router.
pub mod Message
pub mod Router
pub mod Complete
mod Tests
