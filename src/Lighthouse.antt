-- ===== src/Lighthouse.antt =====
-- crates/sharerr-lighthouse/src/lib.rs: the rendezvous table of key hashes and signed records.
pub mod Hex
pub mod Record
pub mod State
pub mod Expiry
pub mod Report
pub mod Trace
pub mod Lookup
pub mod Privacy
mod Tests
