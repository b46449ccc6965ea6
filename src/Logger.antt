-- ===== src/Logger.antt =====
-- The logger package (logger/*.go), a file for each part.
pub mod Value
pub mod Redact
pub mod Level
pub mod State
pub mod Context
pub mod Handler
pub mod Lifecycle
pub mod Platform
pub mod Setup
