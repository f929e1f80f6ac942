-- ===== src/Engine/NoLeak.antt =====
-- No handler leaves a child span open that no record owns.
pub mod Requests
pub mod Downloads
pub mod Grabs
pub mod Imports
pub mod Lifetime
