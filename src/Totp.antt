-- ===== src/Totp.antt =====
-- One-time passwords: crates/sharerr/src/totp.rs.
pub mod Base32
pub mod Digits
pub mod RoundTrip
pub mod Code
pub mod Window
pub mod Accepted
mod Tests
