-- ===== src/Storage.antt =====
-- apps/local-server/src/storage.rs: the store of the projects on the disk.
pub mod Paths
pub mod Disk
pub mod Files
pub mod Manifest
pub mod Project
pub mod Tests
pub mod Examples
