-- ===== src/Wallet.antt =====
-- wallet-core/src: the native wallet's state machine, I/O-independent.
pub mod Types
pub mod Platform
pub mod Validation
pub mod Request
pub mod Package
pub mod Source
pub mod Sweep
pub mod Register
pub mod Codec
pub mod Fund
pub mod Send
pub mod Pending
pub mod Receive
pub mod Exit
pub mod Resume
pub mod Secured
pub mod Deposits
pub mod Invariant
pub mod Calls
pub mod Transfers
pub mod Exits
mod Tests
mod SweepTests
mod CodecTests
mod CoinTests
mod PackageTests
