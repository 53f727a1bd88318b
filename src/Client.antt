-- ===== src/Client.antt =====
-- client/src/lib.rs: the untrusted client's validation and transaction building.
pub mod Types
pub mod Scripts
pub mod Registration
pub mod Recovery
pub mod History
pub mod Exit
pub mod Signing
pub mod Chain
pub mod Package
pub mod Progress
mod Tests
