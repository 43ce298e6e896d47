-- ===== src/Docker.antt =====
-- internal/docker: the Docker domain service over the Synology devices.
pub mod Service
pub mod Networks
pub mod Images
pub mod Containers
mod Sample
