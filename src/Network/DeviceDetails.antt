-- ===== src/Network/DeviceDetails.antt =====
-- internal/network/devices_service.go: the details of a device, by its type.
use homelab_api.Base.{
  ℕ, Text, lit, ◌==◌, ◌||◌, if◌then◌else◌, Option, some, none, List, [], ◌∷◌, ◌++◌, map, filter,
  length,
}
use homelab_api.Base.Int.{ℤ, pos}
use homelab_api.Base.Float.{Float64, truncate}
use homelab_api.Base.Dict.{Dict, lookup, insert}
use homelab_api.Base.Strings.Lower.{Unicode}
use homelab_api.Adapters.UniFi.{UniFiDevice, UniFiSta, UniFiUplink, UniFiWanIface, UniFiNetworkConf}
use homelab_api.Network.Kebab.{to_kebab, normalize_mac}
use homelab_api.Network.Kinds.{DeviceStatus, map_device_status}
use homelab_api.Network.Service.{composite_id}
use homelab_api.Network.Wans.{is_gateway_type}
use homelab_api.Network.Refs.{
  NetworkDeviceRef, NetworkClientRef, NetworkLinkSpeed, link_speed, device_ref, client_ref,
  build_mac_to_device, build_sw_port_to_device, build_sw_port_to_client,
}
use homelab_api.Network.DevicePorts.{
  Strconv, DevicePort, NetworkTraffic, build_device_ports, build_gateway_ports,
}

pub record NetworkConnection : Type 0 where
  pub device : NetworkDeviceRef
  pub port : Option ℤ
  pub link_speed : Option NetworkLinkSpeed

pub record AccessPointClient : Type 0 where
  pub client : NetworkClientRef
  pub ssid : Text
  pub signal_strength : ℤ

pub record WanRef : Type 0 where
  pub id : Text
  pub uri : Text
  pub name : Text

-- What the four kinds of detail have in common, in `base`, and what each has of its own.
pub record DetailBase : Type 0 where
  pub id : Text
  pub uri : Text
  pub name : Text
  pub mac : Text
  pub ip : Text
  pub status : DeviceStatus
  pub model : Text
  pub firmware_version : Text
  pub uptime : ℤ
  pub traffic : NetworkTraffic

pub data DetailOf : Type 0 where
  gateway_detail : List DevicePort → List WanRef → DetailOf
  switch_detail : Option NetworkConnection → List DevicePort → DetailOf
  access_point_detail : Option NetworkConnection → ℕ → List AccessPointClient → DetailOf
  unknown_detail : Option NetworkConnection → DetailOf

pub record NetworkDeviceDetail : Type 0 where
  pub base : DetailBase
  pub detail : DetailOf

abbrev no_traffic : NetworkTraffic
no_traffic = record {
  rx_bytes_total = pos 0;
  tx_bytes_total = pos 0;
  rx_bytes_per_sec = pos 0;
  tx_bytes_per_sec = pos 0;
}

abbrev wan_traffic : Option UniFiWanIface → NetworkTraffic
wan_traffic none = no_traffic
wan_traffic (some wan) = record {
  rx_bytes_total = wan.rx_bytes;
  tx_bytes_total = wan.tx_bytes;
  rx_bytes_per_sec = truncate wan.rx_bytes_r;
  tx_bytes_per_sec = truncate wan.tx_bytes_r;
}

abbrev rate : (UniFiUplink → Float64) → Option UniFiUplink → ℤ
rate field none = pos 0
rate field (some uplink) = truncate (field uplink)

unfoldable pub device_traffic : UniFiDevice → NetworkTraffic
device_traffic d = if is_gateway_type d.type then wan_traffic d.wan1 else record {
  rx_bytes_total = d.rx_bytes;
  tx_bytes_total = d.tx_bytes;
  rx_bytes_per_sec = rate (λ (x : UniFiUplink). x.rx_bytes_r) d.uplink;
  tx_bytes_per_sec = rate (λ (x : UniFiUplink). x.tx_bytes_r) d.uplink;
}

-- The zero value of a map of slices is nil.
abbrev or_nil : Option (List UniFiSta) → List UniFiSta
or_nil none = []
or_nil (some stas) = stas

-- `if sta.ESSID != nil { apc.Ssid = *sta.ESSID }` and the same for the signal
abbrev or_empty : Option Text → Text
or_empty none = []
or_empty (some t) = t

abbrev or_zero : Option ℤ → ℤ
or_zero none = pos 0
or_zero (some n) = n

module _ ⦃u : Unicode⦄ where
  -- One client of the loop of buildApMacToClients.
  unfoldable pub add_to_ap : UniFiSta → Dict (List UniFiSta) → Dict (List UniFiSta)
  add_to_ap c m =
      let mac = normalize_mac c.ap_mac in
      if c.is_wired || c.ap_mac == [] then m else insert mac (or_nil (lookup mac m) ++ c ∷ []) m

  unfoldable pub ap_mac_to_clients_from :
      List UniFiSta → Dict (List UniFiSta) → Dict (List UniFiSta)
  ap_mac_to_clients_from [] m = m
  ap_mac_to_clients_from (c ∷ cs) m = ap_mac_to_clients_from cs (add_to_ap c m)

  unfoldable pub build_ap_mac_to_clients : List UniFiSta → Dict (List UniFiSta)
  build_ap_mac_to_clients clients = ap_mac_to_clients_from clients []

  abbrev connection_to : Text → UniFiUplink → Option UniFiDevice → Option NetworkConnection
  connection_to controller uplink none = none
  connection_to controller uplink (some upstream) = some (record {
    device = device_ref controller upstream;
    port = uplink.uplink_remote_port;
    link_speed = link_speed uplink.speed;
  })

  unfoldable pub uplink_of : Text → Dict UniFiDevice → Option UniFiUplink → Option NetworkConnection
  uplink_of controller mac_to_device none = none
  uplink_of controller mac_to_device (some uplink) =
      if uplink.uplink_mac == []
      then none
      else connection_to controller uplink (lookup (normalize_mac uplink.uplink_mac) mac_to_device)

  unfoldable pub device_uplink : Text → UniFiDevice → Dict UniFiDevice → Option NetworkConnection
  device_uplink controller d mac_to_device = uplink_of controller mac_to_device d.uplink

  unfoldable pub detail_base : Text → UniFiDevice → DetailBase
  detail_base controller d =
      let id = composite_id controller (to_kebab d.name) in
      record {
        id = id;
        uri = lit "/network/devices/" ++ id;
        name = d.name;
        mac = normalize_mac d.mac;
        ip = d.ip;
        status = map_device_status d.state;
        model = d.model;
        firmware_version = d.version;
        uptime = d.uptime;
        traffic = device_traffic d;
      }

  abbrev wan_ref : Text → UniFiNetworkConf → WanRef
  wan_ref controller n =
      let id = composite_id controller (to_kebab n.name) in
      record { id = id; uri = lit "/network/wans/" ++ id; name = n.name }

  unfoldable pub build_gateway_wan_refs : Text → List UniFiNetworkConf → List WanRef
  build_gateway_wan_refs controller confs =
      map (wan_ref controller) (filter (λ (n : UniFiNetworkConf). n.purpose == lit "wan") confs)

  abbrev ap_client : Text → UniFiSta → AccessPointClient
  ap_client controller sta = record {
    client = client_ref controller sta;
    ssid = or_empty sta.essid;
    signal_strength = or_zero sta.signal;
  }

  unfoldable pub build_ap_detail :
      Text → UniFiDevice → Dict UniFiDevice → Dict (List UniFiSta) → DetailOf
  build_ap_detail controller d mac_to_device ap_mac_to_clients =
      let connected =
        map (ap_client controller) (or_nil (lookup (normalize_mac d.mac) ap_mac_to_clients)) in
      access_point_detail (device_uplink controller d mac_to_device) (length connected) connected

  module _ ⦃strconv : Strconv⦄ where
    -- The switch of buildDeviceDetail over the kind, with what each builder adds to the base.
    unfoldable pub build_device_detail :
        Text
        → UniFiDevice
        → List UniFiDevice
        → List UniFiSta
        → List UniFiNetworkConf
        → NetworkDeviceDetail
    build_device_detail controller d devices clients confs = record {
      base = detail_base controller d;
      detail =
          if d.type == lit "usw"
          then switch_detail (device_uplink controller d (build_mac_to_device devices)) (
              build_device_ports controller d (build_sw_port_to_device devices)
                (build_sw_port_to_client clients) confs)
          else if d.type == lit "uap"
          then build_ap_detail controller d (build_mac_to_device devices)
              (build_ap_mac_to_clients clients)
          else if is_gateway_type d.type
          then gateway_detail
              (build_gateway_ports controller d (build_sw_port_to_device devices)
                (build_sw_port_to_client clients) confs)
              (build_gateway_wan_refs controller confs)
          else unknown_detail (device_uplink controller d (build_mac_to_device devices));
    }
