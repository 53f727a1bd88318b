-- ===== src/Enclave.antt =====
-- enclave/src/lib.rs: the signer. The children prove its properties.
pub mod Types
pub mod Hashes
pub mod Signer
pub mod Invariant
pub mod Handoff
pub mod HandedOn
pub mod Moves
mod Tests
