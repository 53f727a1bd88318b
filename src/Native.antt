-- ===== src/Native.antt =====
-- wallet/src: the native wallet around the state machine.
pub mod Model
pub mod Chain
pub mod Http
pub mod Explorer
pub mod Core
pub mod Backend
pub mod Connection
pub mod Access
pub mod Disk
pub mod Wire
pub mod Store
pub mod Policy
pub mod Session
mod Sample
mod Tests
mod RunTests
mod DiskTests
mod StoreTests
mod ExplorerTests
mod CoreTests
