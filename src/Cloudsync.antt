-- ===== src/Cloudsync.antt =====
-- internal/cloudsync: the device's side of the sync with the cloud.
pub mod Engine
pub mod Client
pub mod Controller
mod Tests
