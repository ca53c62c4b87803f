-- ===== src/Agent.antt =====
-- internal/agent: where a conversation's history lives, and the turn loop.
pub mod Ephemeral
pub mod Store
pub mod Transcript
pub mod Tools
pub mod Turn
mod Tests
