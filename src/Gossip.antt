-- ===== src/Gossip.antt =====
-- Where friends were seen: crates/sharerr-store/src/endpoints.rs and crates/sharerr/src/gossip.rs.
pub mod Table
pub mod Count
pub mod Bounded
pub mod Recorded
pub mod Ingest
pub mod Trust
pub mod Index
pub mod Trusted
pub mod Ingested
pub mod Batch
pub mod Tally
mod Tests
