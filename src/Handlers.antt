-- ===== src/Handlers.antt =====
-- The package handlers/: what resolves a query.
pub mod Recursive
pub mod Static
pub mod Texts
pub mod Payload
pub mod Gemini
pub mod Interactive
