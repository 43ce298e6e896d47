-- ===== src/Network/Ports.antt =====
-- internal/network/ports_service.go: the ports of all switches and gateways, and the filter.
pub mod Filter
pub mod Laws
mod Tests
use homelab_api.Base.{
  Text, lit, ◌==◌, Bool, true, false, not, ◌||◌, if◌then◌else◌, Option, some, none, List, [], ◌∷◌,
  ◌++◌, map, filter, any,
}
use homelab_api.Base.Int.{ℤ, int_eq}
use homelab_api.Base.Dict.{Dict}
use homelab_api.Base.Strings.Lower.{Unicode}
use homelab_api.Base.Loop.{Round, next, skip, Logged, for_each, or_warn}
use homelab_api.Adapters.Registry.{BackendEntry}
use homelab_api.Adapters.Listing.{is_unavailable}
use homelab_api.Adapters.UniFi.{UniFiDevice, UniFiSta, UniFiNetworkConf}
use homelab_api.Network.Service.{UniFiBackend, Service}
use homelab_api.Network.Wans.{is_gateway_type}
use homelab_api.Network.Refs.{
  NetworkDeviceRef, device_ref, build_sw_port_to_device, build_sw_port_to_client,
}
use homelab_api.Network.DevicePorts.{
  Strconv, DevicePort, PortState, up, down, build_device_ports, build_gateway_ports,
}
use homelab_api.Network.PortVlans.{
  VlanConfig, VlanMode, access, trunk, TaggedVlans, all_vlans, custom, NetworkVlanRef,
}

-- A NetworkPort: toNetworkPort copies the fields of the DevicePort, which stand in `port`.
pub record NetworkPort : Type 0 where
  pub port : DevicePort
  pub device : NetworkDeviceRef

pub record ListNetworkPortsParams : Type 0 where
  pub device_id : Option Text
  pub state : Option PortState
  pub mode : Option VlanMode
  pub vlan_id : Option ℤ

abbrev pub state_eq : PortState → PortState → Bool
state_eq up up = true
state_eq down down = true
state_eq up down = false
state_eq down up = false

abbrev pub mode_eq : VlanMode → VlanMode → Bool
mode_eq access access = true
mode_eq trunk trunk = true
mode_eq access trunk = false
mode_eq trunk access = false

-- cfg.TaggedVlans, which is nil for an access port.
abbrev pub tagged_matches : Option TaggedVlans → ℤ → Bool
tagged_matches none vlan_id = false
tagged_matches (some all_vlans) vlan_id = true
tagged_matches (some (custom items)) vlan_id =
    any (λ (v : NetworkVlanRef). int_eq v.vlan_id vlan_id) items

unfoldable pub matches_vlan_id : Option VlanConfig → ℤ → Bool
matches_vlan_id none vlan_id = false
matches_vlan_id (some cfg) vlan_id =
    if int_eq cfg.native_vlan.vlan_id vlan_id then true else tagged_matches cfg.tagged_vlans vlan_id

abbrev pub device_matches : Option Text → Text → Bool
device_matches none id = true
device_matches (some wanted) id = id == wanted

abbrev pub state_matches : Option PortState → PortState → Bool
state_matches none state = true
state_matches (some wanted) state = state_eq state wanted

-- port.VlanConfig == nil || port.VlanConfig.Mode != *params.Mode
abbrev pub mode_matches : Option VlanMode → Option VlanConfig → Bool
mode_matches none cfg = true
mode_matches (some wanted) none = false
mode_matches (some wanted) (some cfg) = mode_eq cfg.mode wanted

abbrev pub vlan_matches : Option ℤ → Option VlanConfig → Bool
vlan_matches none cfg = true
vlan_matches (some wanted) cfg = matches_vlan_id cfg wanted

unfoldable pub matches_filter : ListNetworkPortsParams → NetworkPort → Bool
matches_filter params np =
    if not (device_matches params.device_id np.device.id)
    then false
    else if not (state_matches params.state np.port.state)
    then false
    else if not (mode_matches params.mode np.port.vlan_config)
    then false
    else vlan_matches params.vlan_id np.port.vlan_config

unfoldable pub is_switch_or_gateway : Text → Bool
is_switch_or_gateway t = t == lit "usw" || is_gateway_type t

module _ ⦃u : Unicode⦄ ⦃strconv : Strconv⦄ where
  unfoldable pub to_network_port : NetworkDeviceRef → DevicePort → NetworkPort
  to_network_port sw port = record { port = port; device = sw }

  -- The ports of one device.
  unfoldable pub ports_of :
      Text
      → Dict UniFiDevice
      → Dict UniFiSta
      → List UniFiNetworkConf
      → UniFiDevice
      → List NetworkPort
  ports_of controller by_device by_client confs d =
      map (to_network_port (device_ref controller d)) (
        if is_gateway_type d.type
        then build_gateway_ports controller d by_device by_client confs
        else build_device_ports controller d by_device by_client confs)

  -- The loop over the devices of one controller.
  unfoldable pub device_loop :
      ListNetworkPortsParams
      → (UniFiDevice → List NetworkPort)
      → List UniFiDevice
      → List NetworkPort
  device_loop params ports [] = []
  device_loop params ports (d ∷ ds) =
      let rest = device_loop params ports ds in
      if not (is_switch_or_gateway d.type)
      then rest
      else filter (matches_filter params) (ports d) ++ rest

  module _ (s : Service) (params : ListNetworkPortsParams) where
    -- One round of the loop over the controllers.
    unfoldable pub ports_round : BackendEntry UniFiBackend → Round NetworkPort
    ports_round entry =
        if is_unavailable s.monitor entry.name
        then skip
        else or_warn (lit "skipping backend on list ports error") entry.name
            entry.backend.get_devices
            λ devices.
              or_warn (lit "skipping backend on list ports error") entry.name
                entry.backend.get_clients
                λ clients.
                  or_warn (lit "skipping backend on list ports error") entry.name
                    entry.backend.get_network_conf
                    λ confs.
                      next
                        (device_loop params
                          (ports_of entry.name (build_sw_port_to_device devices)
                            (build_sw_port_to_client clients) confs)
                          devices)
                        []

    unfoldable pub list_ports : Logged (List NetworkPort)
    list_ports = for_each ports_round s.backends
