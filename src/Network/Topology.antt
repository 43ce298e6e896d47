-- ===== src/Network/Topology.antt =====
-- internal/network/topology_service.go: the graph of devices and clients. The generated unions are
-- data types; their From… functions only fail if a struct cannot be written as JSON, which these can.
pub mod Graph
pub mod Laws
pub mod Passes
pub mod Joined
mod Tests
use homelab_api.Base.{
  Text, lit, ◌==◌, Bool, true, false, if◌then◌else◌, Option, some, none, List, [], ◌∷◌,
}
use homelab_api.Base.Int.{ℤ, is_pos, int_add, wrap_int64}
use homelab_api.Base.Dict.{Dict, lookup}
use homelab_api.Base.Strings.Lower.{Unicode}
use homelab_api.Adapters.UniFi.{UniFiDevice, UniFiSta, UniFiClientV2, UniFiUplink}
use homelab_api.Network.Kebab.{normalize_mac}
use homelab_api.Network.Names.{ConnectionType, map_connection_type}
use homelab_api.Network.Kinds.{DeviceType, DeviceStatus, map_device_type, map_device_status}
use homelab_api.Network.Refs.{
  NetworkDeviceRef, NetworkClientRef, NetworkLinkSpeed, link_speed, device_ref, client_ref,
  client_ref_v2,
}

pub record TopologyDeviceNode : Type 0 where
  pub id : Text
  pub uri : Text
  pub name : Text
  pub type : DeviceType
  pub status : DeviceStatus
  pub num_clients : Option ℤ

pub data ClientStatus : Type 0 where
  online offline : ClientStatus

pub record TopologyClientNode : Type 0 where
  pub id : Text
  pub uri : Text
  pub name : Text
  pub connection_type : ConnectionType
  pub status : ClientStatus

pub data TopologyNode : Type 0 where
  device_node : TopologyDeviceNode → TopologyNode
  client_node : TopologyClientNode → TopologyNode

pub data NetworkConnectionRef : Type 0 where
  device_source : NetworkDeviceRef → NetworkConnectionRef
  client_source : NetworkClientRef → NetworkConnectionRef

pub record TopologyWiredEdge : Type 0 where
  pub source : NetworkConnectionRef
  pub target : NetworkDeviceRef
  pub port : Option ℤ
  pub link_speed : Option NetworkLinkSpeed

pub record TopologyWirelessEdge : Type 0 where
  pub source : NetworkClientRef
  pub target : NetworkDeviceRef
  pub ssid : Text
  pub signal_strength : Option ℤ

pub data TopologyEdge : Type 0 where
  wired_edge : TopologyWiredEdge → TopologyEdge
  wireless_edge : TopologyWirelessEdge → TopologyEdge

pub record NetworkTopology : Type 0 where
  pub nodes : List TopologyNode
  pub edges : List TopologyEdge

unfoldable pub build_device_node : ⦃u : Unicode⦄ → Text → UniFiDevice → TopologyNode
build_device_node controller d =
    let ref = device_ref controller d in
    device_node (record {
      id = ref.id;
      uri = ref.uri;
      name = d.name;
      type = map_device_type d.type;
      status = map_device_status d.state;
      num_clients =
          if d.type == lit "uap"
          then some (wrap_int64 (int_add d.user_num_sta d.guest_num_sta))
          else none;
    })

unfoldable pub build_device_uplink_edge :
    ⦃u : Unicode⦄ → Text → UniFiDevice → UniFiUplink → UniFiDevice → TopologyEdge
build_device_uplink_edge controller d uplink upstream = wired_edge (record {
  source = device_source (device_ref controller d);
  target = device_ref controller upstream;
  port = uplink.uplink_remote_port;
  link_speed = link_speed uplink.speed;
})

-- `if upstream, ok := macToDevice[normalizeMac(mac)]; ok { … }`, with no edge for an empty `mac`.
unfoldable pub towards :
    ⦃u : Unicode⦄ → Dict UniFiDevice → Text → (UniFiDevice → List TopologyEdge) → List TopologyEdge
towards by_mac mac edges =
    if mac == []
    then []
    else elim (lookup (normalize_mac mac) by_mac) [ none ↦ [] | some upstream ↦ edges upstream ]

unfoldable pub uplink_edge :
    ⦃u : Unicode⦄ → Text → Dict UniFiDevice → UniFiDevice → Option UniFiUplink → List TopologyEdge
uplink_edge controller by_mac d none = []
uplink_edge controller by_mac d (some uplink) =
    towards by_mac uplink.uplink_mac
      λ upstream. build_device_uplink_edge controller d uplink upstream ∷ []

unfoldable pub build_online_client_node : ⦃u : Unicode⦄ → Text → UniFiSta → TopologyNode
build_online_client_node controller sta =
    let ref = client_ref controller sta in
    client_node (record {
      id = ref.id;
      uri = ref.uri;
      name = ref.name;
      connection_type = map_connection_type sta.is_wired;
      status = online;
    })

abbrev online_wired_edge : ⦃u : Unicode⦄ → Text → UniFiSta → UniFiDevice → TopologyEdge
online_wired_edge controller sta upstream = wired_edge (record {
  source = client_source (client_ref controller sta);
  target = device_ref controller upstream;
  port = if is_pos sta.sw_port then some sta.sw_port else none;
  link_speed = link_speed sta.wired_rate_mbps;
})

abbrev pub wireless :
    ⦃u : Unicode⦄
    → Text
    → NetworkClientRef
    → Option ℤ
    → Option Text
    → UniFiDevice
    → List TopologyEdge
wireless controller ref signal none upstream = []
wireless controller ref signal (some ssid) upstream =
    wireless_edge (record {
      source = ref;
      target = device_ref controller upstream;
      ssid = ssid;
      signal_strength = signal;
    })
    ∷ []

-- At most one edge; none for nil.
unfoldable pub build_online_client_edge :
    ⦃u : Unicode⦄ → Text → UniFiSta → Dict UniFiDevice → List TopologyEdge
build_online_client_edge controller sta by_mac =
    if sta.is_wired
    then towards by_mac sta.sw_mac (λ upstream. online_wired_edge controller sta upstream ∷ [])
    else towards by_mac sta.ap_mac
        (wireless controller (client_ref controller sta) sta.signal sta.essid)

unfoldable pub build_offline_client_node : ⦃u : Unicode⦄ → Text → UniFiClientV2 → TopologyNode
build_offline_client_node controller c =
    let ref = client_ref_v2 controller c in
    client_node (record {
      id = ref.id;
      uri = ref.uri;
      name = ref.name;
      connection_type = map_connection_type c.is_wired;
      status = offline;
    })

abbrev offline_wired_edge : ⦃u : Unicode⦄ → Text → UniFiClientV2 → UniFiDevice → TopologyEdge
offline_wired_edge controller c upstream = wired_edge (record {
  source = client_source (client_ref_v2 controller c);
  target = device_ref controller upstream;
  port = none;
  link_speed = none;
})

abbrev pub offline_edges :
    ⦃u : Unicode⦄ → Bool → Text → UniFiClientV2 → UniFiDevice → List TopologyEdge
offline_edges true controller c upstream = offline_wired_edge controller c upstream ∷ []
offline_edges false controller c upstream =
    wireless controller (client_ref_v2 controller c) none c.essid upstream

unfoldable pub build_offline_client_edge :
    ⦃u : Unicode⦄ → Text → UniFiClientV2 → Dict UniFiDevice → List TopologyEdge
build_offline_client_edge controller c by_mac =
    towards by_mac c.last_uplink_mac (offline_edges c.is_wired controller c)
