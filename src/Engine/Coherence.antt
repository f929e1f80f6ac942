-- ===== src/Engine/Coherence.antt =====
-- The traces in flight: the store is well formed, and every record has a root context and every
-- context a record.
pub mod Defs
pub mod Requests
pub mod Downloads
pub mod Grabs
pub mod Imports
pub mod Lifetime
