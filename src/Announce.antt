-- ===== src/Announce.antt =====
-- crates/sharerr-torrent/src/announce.rs: the tracker protocol, without HTTP.
pub mod Address
pub mod Swarms
pub mod Peers
pub mod Answer
pub mod Transfers
pub mod Views
pub mod Wire
pub mod WireRead
pub mod WireValue
pub mod WireFits
pub mod WireScrape
pub mod Query
pub mod QueryBounds
pub mod QueryRead
mod QueryTests
mod Tests
mod WireTests
