-- ===== src/Storage.antt =====
-- internal/storage: the storage domain service over the Synology devices.
pub mod Volumes
pub mod Backups
