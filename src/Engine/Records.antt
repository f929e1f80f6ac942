-- ===== src/Engine/Records.antt =====
-- What each handler does to the records of the store, over any store that keeps its promises.
pub mod Resolve
pub mod Requests
pub mod Downloads
pub mod Grabs
pub mod Imports
pub mod Lifetime
