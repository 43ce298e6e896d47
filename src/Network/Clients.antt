-- ===== src/Network/Clients.antt =====
-- internal/network/clients_service.go: listing the clients, and looking one up.
-- `FromWired…` and `FromWireless…` of the generated union marshal a struct of texts and numbers,
-- which does not fail; the union is a sum.
pub mod Laws
mod Tests
use homelab_api.Base.{
  Bool, Text, lit, ◌==◌, not, if◌then◌else◌, Option, some, none, List, [], ◌∷◌, ◌++◌, map, find,
}
use homelab_api.Base.Int.{ℤ, is_pos}
use homelab_api.Base.Dict.{Dict, lookup}
use homelab_api.Base.Strings.Lower.{Unicode}
use homelab_api.Base.Result.{plain, Result, ok, err, ◌>>=◌, wrapping}
use homelab_api.Base.Loop.{Round, next, skip, Logged, for_each, or_warn}
use homelab_api.Adapters.Registry.{BackendEntry}
use homelab_api.Adapters.Listing.{is_unavailable}
use homelab_api.Adapters.UniFi.{UniFiDevice, UniFiSta, UniFiClientV2}
use homelab_api.Network.Kebab.{normalize_mac}
use homelab_api.Network.Names.{
  ConnectionType, client_name, client_name_v2, client_suffix, client_suffix_v2, map_connection_type,
}
use homelab_api.Network.Refs.{
  NetworkDeviceRef, NetworkLinkSpeed, device_ref, link_speed, build_mac_to_device,
}
use homelab_api.Network.Service.{
  UniFiBackend, Service, or_zero, find_backend, parse_id, composite_id, missing,
}

-- `status` is "online", "offline", or whatever else the controller reports.
pub record NetworkClient : Type 0 where
  pub id : Text
  pub uri : Text
  pub name : Text
  pub mac : Text
  pub connection_type : ConnectionType
  pub status : Text
  pub ip : Option Text

-- In the two records below `none` for a device is the zero NetworkDeviceRef.
pub record NetworkConnection : Type 0 where
  pub device : Option NetworkDeviceRef
  pub port : Option ℤ
  pub link_speed : Option NetworkLinkSpeed

pub record WirelessConnection : Type 0 where
  pub device : Option NetworkDeviceRef
  pub ssid : Text
  pub signal_strength : Option ℤ

-- What a wired client and a wireless one are connected to.
pub data ConnectedTo : Type 0 where
  wired : NetworkConnection → ConnectedTo
  wireless : WirelessConnection → ConnectedTo

pub record NetworkClientDetail : Type 0 where
  pub id : Text
  pub uri : Text
  pub name : Text
  pub mac : Text
  pub ip : Option Text
  pub status : Text
  pub connected_to : ConnectedTo
  pub uptime : Option ℤ

-- `if t != "" { p = &t }`
abbrev pub unless_empty : Text → Option Text
unless_empty t = if not (t == []) then some t else none

abbrev client_uri : Text → Text
client_uri id = lit "/network/clients/" ++ id

unfoldable pub client_to_list_v2 : ⦃u : Unicode⦄ → Text → UniFiClientV2 → NetworkClient
client_to_list_v2 controller c =
    let id = composite_id controller (client_suffix_v2 c) in
    record {
      id = id;
      uri = client_uri id;
      name = client_name_v2 c;
      mac = normalize_mac c.mac;
      connection_type = map_connection_type c.is_wired;
      status = c.status;
      ip = unless_empty (if c.status == lit "online" then c.ip else c.last_ip);
    }

unfoldable pub client_to_list : ⦃u : Unicode⦄ → Text → UniFiSta → NetworkClient
client_to_list controller sta =
    let id = composite_id controller (client_suffix sta) in
    record {
      id = id;
      uri = client_uri id;
      name = client_name sta;
      mac = normalize_mac sta.mac;
      connection_type = map_connection_type sta.is_wired;
      status = lit "online";
      ip = unless_empty sta.ip;
    }

-- The switch on the status filter.
fetch_clients : Text → ℤ → UniFiBackend → Result (List UniFiClientV2)
fetch_clients status days backend =
    if status == lit "online"
    then backend.get_active_clients
    else if status == lit "offline"
    then backend.get_offline_clients days
    else backend.get_all_clients days

module _ ⦃u : Unicode⦄ (s : Service) where
  clients_round : Text → BackendEntry UniFiBackend → Round NetworkClient
  unfolding fetch_clients
  clients_round status entry =
      if is_unavailable s.monitor entry.name
      then skip
      else or_warn (lit "skipping backend on list clients error") entry.name
          (fetch_clients status (or_zero (lookup entry.name s.history_days)) entry.backend)
          (λ raw. next (map (client_to_list_v2 entry.name) raw) [])

  pub list_clients : Text → Logged (List NetworkClient)
  unfolding clients_round
  list_clients status = for_each (clients_round status) s.backends

-- `if dev, ok := macToDevice[normalizeMac(mac)]; ok { conn.Device = deviceRef(controller, dev) }`
connected_device : ⦃u : Unicode⦄ → Text → Dict UniFiDevice → Text → Option NetworkDeviceRef
connected_device controller mac_to_device mac = elim (lookup (normalize_mac mac) mac_to_device) [
  | none ↦ none
  | some dev ↦ some (device_ref controller dev)
]

-- A nil ESSID leaves the empty text.
abbrev or_empty : Option Text → Text
or_empty none = []
or_empty (some t) = t

pub client_to_detail : ⦃u : Unicode⦄ → Text → Dict UniFiDevice → UniFiSta → NetworkClientDetail
unfolding connected_device
client_to_detail controller mac_to_device sta =
    let id = composite_id controller (client_suffix sta) in
    record {
      id = id;
      uri = client_uri id;
      name = client_name sta;
      mac = normalize_mac sta.mac;
      ip = unless_empty sta.ip;
      status = lit "online";
      connected_to =
          if sta.is_wired
          then wired (record {
            device = connected_device controller mac_to_device sta.sw_mac;
            port = if is_pos sta.sw_port then some sta.sw_port else none;
            link_speed = link_speed sta.wired_rate_mbps;
          })
          else wireless (record {
            device = connected_device controller mac_to_device sta.ap_mac;
            ssid = or_empty sta.essid;
            signal_strength = sta.signal;
          });
      uptime = some sta.uptime;
    }

pub client_to_detail_v2 :
    ⦃u : Unicode⦄ → Text → Dict UniFiDevice → UniFiClientV2 → NetworkClientDetail
unfolding connected_device
client_to_detail_v2 controller mac_to_device c =
    let id = composite_id controller (client_suffix_v2 c) in
    record {
      id = id;
      uri = client_uri id;
      name = client_name_v2 c;
      mac = normalize_mac c.mac;
      ip = unless_empty c.last_ip;
      status = lit "offline";
      connected_to =
          if c.is_wired
          then wired (record {
            device = connected_device controller mac_to_device c.last_uplink_mac;
            port = none;
            link_speed = none;
          })
          else wireless (record {
            device = connected_device controller mac_to_device c.last_uplink_mac;
            ssid = or_empty c.essid;
            signal_strength = none;
          });
      uptime = none;
    }

-- The tests of the two searches.
has_suffix : ⦃u : Unicode⦄ → Text → UniFiSta → Bool
has_suffix suffix sta = client_suffix sta == suffix

has_suffix_v2 : ⦃u : Unicode⦄ → Text → UniFiClientV2 → Bool
has_suffix_v2 suffix c = client_suffix_v2 c == suffix

-- The end of the search in the offline history.
offline_detail :
    ⦃u : Unicode⦄
    → Text
    → Text
    → Dict UniFiDevice
    → Option UniFiClientV2
    → Result NetworkClientDetail
offline_detail id controller mac_to_device (some c) =
    ok (client_to_detail_v2 controller mac_to_device c)
offline_detail id controller mac_to_device none =
    err (missing (lit "Network client not found: ") id)

module _ ⦃u : Unicode⦄ (s : Service) where
  -- The search in the offline history, after the active clients.
  find_offline : Text → Text → Text → UniFiBackend → Dict UniFiDevice → Result NetworkClientDetail
  unfolding offline_detail has_suffix_v2
  find_offline id controller suffix backend mac_to_device = do
    offline ←
        wrapping (plain (lit "get unifi offline clients") ∷ [])
          (backend.get_offline_clients (or_zero (lookup controller s.history_days)))
    offline_detail id controller mac_to_device (find (has_suffix_v2 suffix) offline)

  -- The detail of an active client, or else the search in the offline history.
  active_or_offline :
      Text
      → Text
      → Text
      → UniFiBackend
      → Dict UniFiDevice
      → Option UniFiSta
      → Result NetworkClientDetail
  unfolding find_offline
  active_or_offline id controller suffix backend mac_to_device (some sta) =
      ok (client_to_detail controller mac_to_device sta)
  active_or_offline id controller suffix backend mac_to_device none =
      find_offline id controller suffix backend mac_to_device

  pub get_client : Text → Result NetworkClientDetail
  unfolding active_or_offline has_suffix
  get_client id = do
    (controller, suffix) ← parse_id id
    backend ← find_backend s controller
    devices ← wrapping (plain (lit "get unifi devices") ∷ []) backend.get_devices
    raw ← wrapping (plain (lit "get unifi clients") ∷ []) backend.get_clients
    active_or_offline id controller suffix backend (build_mac_to_device devices)
        (find (has_suffix suffix) raw)
