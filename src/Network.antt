-- ===== src/Network.antt =====
-- internal/network: the network domain service over the UniFi controllers.
pub mod Kebab
pub mod Service
pub mod Names
pub mod Refs
pub mod Clients
pub mod Fields
pub mod Kinds
pub mod Vlans
pub mod Topology
pub mod DeviceDetails
pub mod Devices
pub mod PortVlans
pub mod DevicePorts
pub mod Ports
pub mod Wans
pub mod Ssids
