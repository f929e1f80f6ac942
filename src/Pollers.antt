-- ===== src/Pollers.antt =====
-- internal/poller: one tick of a poller. The HTTP exchange and the decoding of its body are a
-- parameter: the records, or none where the exchange failed.
pub mod Prowlarr
pub mod Cursor
pub mod Queue
pub mod Repeats
pub mod Loops
