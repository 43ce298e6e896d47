-- ===== src/Adapters.antt =====
-- internal/adapters: what every domain service shares, and the clients of the two kinds of backend.
pub mod Registry
pub mod UniFi
pub mod Synology
pub mod Dsm
pub mod Controller
pub mod Listing
