-- ===== src/Torrent.antt =====
-- The torrent file: crates/sharerr-torrent/src/metainfo.rs and factory.rs.
pub mod Metainfo
pub mod Fields
pub mod Stream
pub mod Chunks
pub mod Visit
pub mod Hashing
pub mod Hybrid
pub mod Pieces
pub mod Verify
pub mod PieceLength
pub mod Verified
pub mod Factory
pub mod Announced
pub mod Reread
pub mod Rewrite
pub mod Retarget
pub mod PlainInfo
pub mod Created
mod Tests
