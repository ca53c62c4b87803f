-- ===== src/Client.antt =====
-- internal/client: the harness on the user's machine.
pub mod Approval
pub mod Harness
mod Tests
