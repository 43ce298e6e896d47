-- ===== src/Network/Refs.antt =====
-- The references between resources, the indexes by MAC and by port, and the link speeds of
-- internal/network/devices_service.go.
use homelab_api.Base.{
  Text, lit, ◌==◌, not, ◌||◌, if◌then◌else◌, Option, some, none, List, [], ◌∷◌, ◌++◌,
}
use homelab_api.Base.Int.{ℤ, pos, is_pos, int_eq}
use homelab_api.Base.Int.Decimal.{format}
use homelab_api.Base.Dict.{Dict, lookup, insert, index_by}
use homelab_api.Base.Strings.Lower.{Unicode}
use homelab_api.Adapters.UniFi.{UniFiDevice, UniFiSta, UniFiClientV2, UniFiUplink}
use homelab_api.Network.Kebab.{to_kebab, normalize_mac}
use homelab_api.Network.Service.{composite_id}
use homelab_api.Network.Names.{client_name, client_name_v2, client_suffix, client_suffix_v2}

pub record NetworkDeviceRef : Type 0 where
  pub id : Text
  pub uri : Text
  pub name : Text

pub record NetworkClientRef : Type 0 where
  pub id : Text
  pub uri : Text
  pub name : Text

pub data NetworkLinkSpeed : Type 0 where
  e fe gbe1 gbe2_5 gbe5 gbe10 : NetworkLinkSpeed

-- `none` is the empty string, which every caller tests for.
unfoldable pub map_link_speed : ℤ → Option NetworkLinkSpeed
map_link_speed mbps =
    if int_eq mbps (pos 10)
    then some e
    else if int_eq mbps (pos 100)
    then some fe
    else if int_eq mbps (pos 1000)
    then some gbe1
    else if int_eq mbps (pos 2500)
    then some gbe2_5
    else if int_eq mbps (pos 5000)
    then some gbe5
    else if int_eq mbps (pos 10000)
    then some gbe10
    else none

-- `if speed > 0 { if ls := mapLinkSpeed(speed); ls != "" { … = &ls } }`
unfoldable pub link_speed : ℤ → Option NetworkLinkSpeed
unfolding map_link_speed
link_speed speed = if is_pos speed then map_link_speed speed else none

unfoldable pub device_id : ⦃u : Unicode⦄ → Text → UniFiDevice → Text
unfolding composite_id
device_id controller d = composite_id controller (to_kebab d.name)

unfoldable pub device_ref : ⦃u : Unicode⦄ → Text → UniFiDevice → NetworkDeviceRef
device_ref controller d =
    let id = device_id controller d in
    record { id = id; uri = lit "/network/devices/" ++ id; name = d.name }

unfoldable pub client_ref : ⦃u : Unicode⦄ → Text → UniFiSta → NetworkClientRef
client_ref controller sta =
    let id = composite_id controller (client_suffix sta) in
    record { id = id; uri = lit "/network/clients/" ++ id; name = client_name sta }

unfoldable pub client_ref_v2 : ⦃u : Unicode⦄ → Text → UniFiClientV2 → NetworkClientRef
client_ref_v2 controller c =
    let id = composite_id controller (client_suffix_v2 c) in
    record { id = id; uri = lit "/network/clients/" ++ id; name = client_name_v2 c }

unfoldable pub build_mac_to_device : ⦃u : Unicode⦄ → List UniFiDevice → Dict UniFiDevice
build_mac_to_device devices = index_by (λ (d : UniFiDevice). normalize_mac d.mac) devices

-- fmt.Sprintf("%s:%d", mac, port)
unfoldable pub port_key : Text → ℤ → Text
port_key mac port = mac ++ b':' ∷ format port

-- One device of the loop of buildSwPortToDevice: the entry for the port of the upstream device, and
-- the entry for the device's own port.
add_remote_port : ⦃u : Unicode⦄ → UniFiDevice → UniFiUplink → Dict UniFiDevice → Dict UniFiDevice
add_remote_port d uplink m = elim uplink.uplink_remote_port [
  | none ↦ m
  | some port ↦ insert (port_key (normalize_mac uplink.uplink_mac) port) d m
]

add_own_port :
    ⦃u : Unicode⦄
    → Dict UniFiDevice
    → UniFiDevice
    → UniFiUplink
    → Dict UniFiDevice
    → Dict UniFiDevice
add_own_port by_mac d uplink m = elim uplink.port_idx [
  | none ↦ m
  | some port ↦ elim (lookup (normalize_mac uplink.uplink_mac) by_mac) [
    | none ↦ m
    | some upstream ↦ insert (port_key (normalize_mac d.mac) port) upstream m
  ]
]

add_uplink : ⦃u : Unicode⦄ → Dict UniFiDevice → UniFiDevice → Dict UniFiDevice → Dict UniFiDevice
unfolding add_remote_port add_own_port
add_uplink by_mac d m = elim d.uplink [
  | none ↦ m
  | some uplink ↦
      if uplink.uplink_mac == []
      then m
      else add_own_port by_mac d uplink (add_remote_port d uplink m)
]

add_uplinks :
    ⦃u : Unicode⦄ → Dict UniFiDevice → List UniFiDevice → Dict UniFiDevice → Dict UniFiDevice
add_uplinks by_mac [] m = m
add_uplinks by_mac (d ∷ ds) m = add_uplinks by_mac ds (add_uplink by_mac d m)

unfoldable pub build_sw_port_to_device : ⦃u : Unicode⦄ → List UniFiDevice → Dict UniFiDevice
unfolding add_uplinks add_uplink
build_sw_port_to_device devices = add_uplinks (build_mac_to_device devices) devices []

add_client_port : ⦃u : Unicode⦄ → UniFiSta → Dict UniFiSta → Dict UniFiSta
add_client_port c m =
    if not c.is_wired || c.sw_mac == [] || int_eq c.sw_port (pos 0)
    then m
    else insert (port_key (normalize_mac c.sw_mac) c.sw_port) c m

add_client_ports : ⦃u : Unicode⦄ → List UniFiSta → Dict UniFiSta → Dict UniFiSta
unfolding add_client_port
add_client_ports [] m = m
add_client_ports (c ∷ cs) m = add_client_ports cs (add_client_port c m)

unfoldable pub build_sw_port_to_client : ⦃u : Unicode⦄ → List UniFiSta → Dict UniFiSta
unfolding add_client_ports
build_sw_port_to_client clients = add_client_ports clients []
