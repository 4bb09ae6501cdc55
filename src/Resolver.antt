-- ===== src/Resolver.antt =====
-- The package resolver/: the server skeleton and what it owns.
pub mod Types
pub mod Cache
pub mod Bailiwick
pub mod Request
pub mod Helper
pub mod TraceStore
pub mod RootHints
pub mod Server
