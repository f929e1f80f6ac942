-- ===== src/Engine.antt =====
-- internal/correlate/engine.go: the correlation engine. Every method runs under the engine's mutex,
-- so that it is one step of the state. The children hold the state and the handlers, then the proofs.
pub mod Calls
pub mod State
pub mod Attributes
pub mod Requests
pub mod Downloads
pub mod Grabs
pub mod Imports
pub mod Titles
pub mod Queue
pub mod Lifetime
pub mod Process
pub mod OpenSpans
pub mod Records
pub mod NoLeak
pub mod Coherence
pub mod Runs
pub mod Writes
pub mod Duplicates
pub mod Attempts
pub mod OutOfOrder
pub mod Gauges
pub mod GrabGauge
pub mod TitleMatch
pub mod Restart
pub mod Drains
pub mod Recovery
