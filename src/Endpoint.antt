-- ===== src/Endpoint.antt =====
-- crates/sharerr-core/src/endpoint.rs: the address at which friends reach this instance.
pub mod State
pub mod History
pub mod Current
pub mod AnnounceList
pub mod Announced
pub mod Token
mod Tests
