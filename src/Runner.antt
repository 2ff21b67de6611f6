-- ===== src/Runner.antt =====
-- The runner: shells that visitors use, one per session (runner/).
pub mod Validate
pub mod Session
pub mod Shell
pub mod LlmValidator
pub mod Handler
pub mod Register
pub mod Http
pub mod Identity
pub mod Main
pub mod Router
