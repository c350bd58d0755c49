-- ===== src/Boltstore.antt =====
-- internal/store/boltstore: the local store over bbolt.
pub mod Db
pub mod Fixture
mod Tests
mod SyncTests
pub mod Analytics
pub mod Audit
pub mod Stock
pub mod Products
pub mod Sales
pub mod Settings
pub mod Outbox
pub mod Pull
pub mod Search
