-- ===== src/Paths.antt =====
-- crates/sharerr-core/src/paths.rs: the three views of one path of the library.
pub mod Resolver
pub mod Match
pub mod Views
pub mod Outcome
mod Tests
