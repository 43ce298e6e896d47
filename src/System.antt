-- ===== src/System.antt =====
-- internal/system: the updates of container images, the aggregate health, and system information.
pub mod Images
pub mod Releases
pub mod Scan
pub mod Updates
pub mod Health
pub mod Info
