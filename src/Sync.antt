-- ===== src/Sync.antt =====
-- The reconciliation pass of crates/sharerr/src/sync: what the libraries want shared, against what
-- the store records and the torrent client holds.
pub mod Exec
pub mod Keeps
pub mod Item
pub mod World
pub mod Store
pub mod Report
pub mod Cached
pub mod Refresh
pub mod Friends
pub mod Seed
pub mod Live
pub mod Pass
pub mod Discovery
pub mod Reconcile
pub mod Frame
pub mod SeedFrame
pub mod JoinFrame
pub mod PassFrame
pub mod ShareFrame
pub mod Leads
pub mod Member
pub mod Own
pub mod ReconcileFrame
pub mod Scanned
pub mod Safety
pub mod Removals
pub mod DryRun
pub mod Completes
pub mod Counts
pub mod Tally
pub mod Adopted
pub mod Ordering
pub mod Ensures
pub mod Recorded
pub mod Foreign
pub mod Filed
mod Samples
mod Tests
