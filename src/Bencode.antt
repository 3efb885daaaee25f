-- ===== src/Bencode.antt =====
-- crates/sharerr-torrent/src/bencode.rs: values, their encoding and their decoding.
pub mod Value
pub mod Encode
pub mod Decode
pub mod Pieces
pub mod Order
pub mod Maps
pub mod RoundTrip
pub mod Total
pub mod Reread
mod Tests
