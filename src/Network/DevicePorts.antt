-- ===== src/Network/DevicePorts.antt =====
-- internal/network/devices_service.go: the ports of switches and gateways.
use homelab_api.Base.{
  Text, lit, ◌==◌, Bool, true, not, ◌&&◌, if◌then◌else◌, Option, some, none, List, [], ◌∷◌, ◌++◌,
  map, filter,
}
use homelab_api.Base.Int.{ℤ}
use homelab_api.Base.Int.Decimal.{format}
use homelab_api.Base.Float.{Float64, Any, number, bool, truncate}
use homelab_api.Base.Dict.{Dict, lookup, insert, flag, index_by}
use homelab_api.Base.Strings.Lower.{Unicode}
use homelab_api.Adapters.UniFi.{
  UniFiDevice, UniFiSta, UniFiPortEntry, UniFiNetworkConf, UniFiWanIface,
}
use homelab_api.Network.Kebab.{normalize_mac}
use homelab_api.Network.PortVlans.{VlanConfig, find_default_net_id, build_vlan_config}
use homelab_api.Network.Refs.{NetworkLinkSpeed, link_speed, device_ref, client_ref, port_key}
use homelab_api.Network.Topology.{NetworkConnectionRef, device_source, client_source}

-- strconv.ParseFloat, for a caller that only tests for an error, which is none.
pub record Strconv : Type 0 where
  pub parse_float : Text → Option Float64

pub data PortState : Type 0 where
  up down : PortState

pub data PoeMode : Type 0 where
  auto passive24v passthrough off : PoeMode

pub data LagRole : Type 0 where
  master member : LagRole

pub record LagMembership : Type 0 where
  pub id : ℤ
  pub role : LagRole

pub record NetworkTraffic : Type 0 where
  pub rx_bytes_total : ℤ
  pub tx_bytes_total : ℤ
  pub rx_bytes_per_sec : ℤ
  pub tx_bytes_per_sec : ℤ

pub record DevicePort : Type 0 where
  pub number : ℤ
  pub label : Option Text
  pub state : PortState
  pub link_speed : Option NetworkLinkSpeed
  pub link_uptime : Option ℤ
  pub sfp_module_present : Option Bool
  pub poe_mode : Option PoeMode
  pub poe_power_watts : Option Float64
  pub lag_membership : Option LagMembership
  pub vlan_config : Option VlanConfig
  pub traffic : NetworkTraffic
  pub connected_to : Option NetworkConnectionRef

unfoldable pub map_port_state : Bool → PortState
map_port_state is_up = if is_up then up else down

unfoldable pub map_poe_mode : Text → PoeMode
map_poe_mode mode =
    if mode == lit "auto"
    then auto
    else if mode == lit "passive24v"
    then passive24v
    else if mode == lit "passthrough"
    then passthrough
    else off

unfoldable pub build_port_label : UniFiPortEntry → Option Text
build_port_label p = if p.name == lit "Port " ++ format p.port_idx then none else some p.name

unfoldable pub build_link_uptime : UniFiPortEntry → Option ℤ
build_link_uptime p = if not p.up then none else p.uptime

-- Pass 1 of buildDevicePorts: the ports that others name as the one that aggregates them.
unfoldable pub add_master : Any → Dict Bool → Dict Bool
add_master (number f) m = insert (format (truncate f)) true m
add_master v m = m

unfoldable pub master_set : List UniFiPortEntry → Dict Bool → Dict Bool
master_set [] m = m
master_set (p ∷ ps) m = master_set ps (add_master p.aggregated_by m)

unfoldable pub lag_membership : Any → ℤ → Dict Bool → Option LagMembership
lag_membership (number f) port_idx masters = some (record { id = truncate f; role = member })
lag_membership (bool v) port_idx masters =
    if not v && flag (format port_idx) masters
    then some (record { id = port_idx; role = master })
    else none
lag_membership v port_idx masters = none

unfoldable pub build_lag_membership : UniFiPortEntry → Dict Bool → Option LagMembership
build_lag_membership p masters = lag_membership p.aggregated_by p.port_idx masters

module _ ⦃u : Unicode⦄ where
  abbrev or_client : Text → Option UniFiSta → Option NetworkConnectionRef
  or_client controller none = none
  or_client controller (some sta) = some (client_source (client_ref controller sta))

  abbrev device_or :
      Text → Option UniFiDevice → Option NetworkConnectionRef → Option NetworkConnectionRef
  device_or controller none otherwise = otherwise
  device_or controller (some dev) otherwise = some (device_source (device_ref controller dev))

  unfoldable pub resolve_port_connected_to :
      Text → Text → ℤ → Dict UniFiDevice → Dict UniFiSta → Option NetworkConnectionRef
  resolve_port_connected_to controller switch_mac port_idx sw_port_to_device sw_port_to_client =
      let key = port_key switch_mac port_idx in
      device_or controller (lookup key sw_port_to_device)
        (or_client controller (lookup key sw_port_to_client))

  module _ ⦃strconv : Strconv⦄ where
    -- One port of pass 2 of buildDevicePorts.
    unfoldable pub build_port :
        Text
        → Text
        → Dict Bool
        → Dict UniFiNetworkConf
        → Text
        → Dict UniFiDevice
        → Dict UniFiSta
        → UniFiPortEntry
        → DevicePort
    build_port controller switch_mac masters conf_by_id default_net_id by_device by_client p =
        record {
          number = p.port_idx;
          label = build_port_label p;
          state = map_port_state p.up;
          link_speed = if p.up then link_speed p.speed else none;
          link_uptime = build_link_uptime p;
          sfp_module_present = p.sfp_found;
          poe_mode = if p.port_poe then some (map_poe_mode p.poe_mode) else none;
          poe_power_watts =
              if p.port_poe && not (p.poe_power == [])
              then strconv.parse_float p.poe_power
              else none;
          lag_membership = build_lag_membership p masters;
          vlan_config = build_vlan_config p conf_by_id default_net_id controller;
          traffic = record {
            rx_bytes_total = p.rx_bytes;
            tx_bytes_total = p.tx_bytes;
            rx_bytes_per_sec = truncate p.rx_bytes_r;
            tx_bytes_per_sec = truncate p.tx_bytes_r;
          };
          connected_to =
              resolve_port_connected_to controller switch_mac p.port_idx by_device by_client;
        }

    unfoldable pub build_device_ports :
        Text
        → UniFiDevice
        → Dict UniFiDevice
        → Dict UniFiSta
        → List UniFiNetworkConf
        → List DevicePort
    build_device_ports controller d by_device by_client confs =
        map
          (build_port controller (normalize_mac d.mac) (master_set d.port_table [])
            (index_by (λ (c : UniFiNetworkConf). c.id) confs) (find_default_net_id confs) by_device
            by_client)
          d.port_table

    -- `if d.Wan1 != nil && d.Wan1.Name != "" { s[d.Wan1.Name] = true }`
    abbrev add_ifname : Option UniFiWanIface → Dict Bool → Dict Bool
    add_ifname none s = s
    add_ifname (some wan) s = if not (wan.name == []) then insert wan.name true s else s

    unfoldable pub wan_ifnames : UniFiDevice → Dict Bool
    wan_ifnames d = add_ifname d.wan2 (add_ifname d.wan1 [])

    unfoldable pub build_gateway_ports :
        Text
        → UniFiDevice
        → Dict UniFiDevice
        → Dict UniFiSta
        → List UniFiNetworkConf
        → List DevicePort
    build_gateway_ports controller d by_device by_client confs =
        build_device_ports controller
          (record d {
            port_table =
                filter (λ (p : UniFiPortEntry). not (flag p.ifname (wan_ifnames d))) d.port_table;
          })
          by_device by_client confs
