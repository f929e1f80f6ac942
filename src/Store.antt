-- ===== src/Store.antt =====
-- internal/correlate/store.go: the records that a store keeps, and the interface `Store` that the
-- engine is written against. A state is a value: the engine writes each record that it changed back
-- with `put` before it reads the store again, so that the pointers that Go shares with the store
-- show nothing else. The implementations are the modules below.
pub mod Records
pub mod Interface
pub mod Listing
pub mod Memory
pub mod Disk
pub mod Bolt
pub use Records.*
pub use Interface.*
