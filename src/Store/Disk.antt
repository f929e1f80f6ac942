-- ===== src/Store/Disk.antt =====
-- internal/correlate/store_bolt.go: what stands on disk.
pub mod Keys
pub mod Json
pub mod Codec
pub mod Unix
pub mod Buckets
pub mod Loading
mod Decimals
mod Scans
pub mod KeyRoundTrip
