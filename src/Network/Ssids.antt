-- ===== src/Network/Ssids.antt =====
-- internal/network/ssids_service.go: the wireless networks.
pub mod Laws
pub mod Lookup
mod Tests
use homelab_api.Base.{
  Text, ◌==◌, lit, ℕ, Bool, not, ◌&&◌, if◌then◌else◌, Option, some, none, List, [], ◌∷◌, ◌++◌, map,
  filter, find, any, length,
}
use homelab_api.Base.Int.{ℤ, pos, int_eq}
use homelab_api.Base.Dict.{Dict, lookup, insert, index_by}
use homelab_api.Base.Strings.Lower.{Unicode}
use homelab_api.Base.Strings.Order.{text_lt}
use homelab_api.Base.Result.{plain, Result, ok, err, ◌>>=◌, wrapping}
use homelab_api.Base.Loop.{Round, next, skip, Logged, for_each, or_warn}
use homelab_api.Adapters.Registry.{BackendEntry}
use homelab_api.Adapters.Listing.{is_unavailable}
use homelab_api.Adapters.UniFi.{UniFiDevice, UniFiSta, UniFiVap, UniFiWlanConf, UniFiNetworkConf}
use homelab_api.Network.Kebab.{to_kebab, normalize_mac}
use homelab_api.Network.Fields.{extract_vlan_id}
use homelab_api.Network.Refs.{NetworkDeviceRef, NetworkClientRef, device_ref, client_ref}
use homelab_api.Network.Service.{
  UniFiBackend, Service, find_backend, parse_id, composite_id, missing,
}

pub data WifiBand : Type 0 where
  band_2g band_5g band_6g : WifiBand

pub data WifiSecurityProtocol : Type 0 where
  open_network wpa2 wpa2_wpa3 wpa3 : WifiSecurityProtocol

pub record Ssid : Type 0 where
  pub id : Text
  pub name : Text
  pub uri : Text
  pub bands : List WifiBand
  pub vlan_id : ℤ
  pub num_clients : ℕ

pub record SsidDetail : Type 0 where
  pub id : Text
  pub name : Text
  pub uri : Text
  pub bands : List WifiBand
  pub vlan_id : ℤ
  pub num_clients : ℕ
  pub clients : List NetworkClientRef
  pub broadcasting_aps : List NetworkDeviceRef
  pub security_protocol : WifiSecurityProtocol

-- A missing key of a map of slices is the nil slice.
abbrev pub or_no_clients : Option (List UniFiSta) → List UniFiSta
or_no_clients none = []
or_no_clients (some clients) = clients

-- The loop body of buildClientsBySSID.
add_on_ssid : UniFiSta → Option Text → Dict (List UniFiSta) → Dict (List UniFiSta)
add_on_ssid c none m = m
add_on_ssid c (some essid) m =
    if c.is_wired then m else insert essid (or_no_clients (lookup essid m) ++ c ∷ []) m

clients_by_ssid_from : List UniFiSta → Dict (List UniFiSta) → Dict (List UniFiSta)
unfolding add_on_ssid
clients_by_ssid_from [] m = m
clients_by_ssid_from (c ∷ cs) m = clients_by_ssid_from cs (add_on_ssid c c.essid m)

pub build_clients_by_ssid : List UniFiSta → Dict (List UniFiSta)
unfolding clients_by_ssid_from
build_clients_by_ssid clients = clients_by_ssid_from clients []

band_of : Text → Option WifiBand
band_of b =
    if b == lit "2g"
    then some band_2g
    else if b == lit "5g"
    then some band_5g
    else if b == lit "6g"
    then some band_6g
    else none

map_bands : List Text → List WifiBand
unfolding band_of
map_bands [] = []
map_bands (b ∷ bands) =
    let rest = map_bands bands in elim (band_of b) [ none ↦ rest | some band ↦ band ∷ rest ]

map_security_protocol : UniFiWlanConf → WifiSecurityProtocol
map_security_protocol w =
    if w.security == lit "open"
    then open_network
    else if w.wpa_mode == lit "wpa2"
    then if w.wpa3_transition then wpa2_wpa3 else wpa2
    else if w.wpa_mode == lit "wpa3"
    then wpa3
    else wpa2

-- The VLAN of the WLAN's network, or the native one.
vlan_of : List UniFiNetworkConf → UniFiWlanConf → ℤ
vlan_of networks w =
    elim (lookup w.network_conf_id (index_by (λ (n : UniFiNetworkConf). n.id) networks)) [
      | none ↦ pos 1
      | some n ↦ extract_vlan_id n.vlan
    ]

clients_on : List UniFiSta → UniFiWlanConf → List UniFiSta
unfolding build_clients_by_ssid
clients_on clients w = or_no_clients (lookup w.name (build_clients_by_ssid clients))

-- The tests on one access point.
broadcasts : Text → UniFiDevice → Bool
broadcasts wlan_id d =
    d.type == lit "uap"
    && int_eq d.state (pos 1)
    && any (λ (vap : UniFiVap). vap.id == wlan_id && vap.up) d.vap_table

-- One step of slices.SortFunc by ID; references of one ID come in no particular order.
insert_ref : NetworkDeviceRef → List NetworkDeviceRef → List NetworkDeviceRef
insert_ref r [] = r ∷ []
insert_ref r (x ∷ xs) =
    let later = x ∷ insert_ref r xs in if text_lt r.id x.id then r ∷ x ∷ xs else later

sort_refs : List NetworkDeviceRef → List NetworkDeviceRef
unfolding insert_ref
sort_refs [] = []
sort_refs (r ∷ rs) = insert_ref r (sort_refs rs)

module _ ⦃u : Unicode⦄ where
  collect_broadcasting_aps : Text → Text → Dict UniFiDevice → List NetworkDeviceRef
  unfolding broadcasts sort_refs
  collect_broadcasting_aps controller wlan_id device_by_mac =
      sort_refs
        (map (device_ref controller) (filter (broadcasts wlan_id) (map (λ p. p.1) device_by_mac)))

  pub map_ssid : Text → List UniFiNetworkConf → List UniFiSta → UniFiWlanConf → Ssid
  unfolding vlan_of clients_on map_bands
  map_ssid controller networks clients w =
      let id = composite_id controller (to_kebab w.name) in
      record {
        id = id;
        name = w.name;
        uri = lit "/network/ssids/" ++ id;
        bands = map_bands w.wlan_bands;
        vlan_id = vlan_of networks w;
        num_clients = length (clients_on clients w);
      }

  -- The detail has the ID that was asked for.
  map_ssid_detail :
      Text
      → Text
      → List UniFiNetworkConf
      → List UniFiSta
      → List UniFiDevice
      → UniFiWlanConf
      → SsidDetail
  unfolding vlan_of clients_on map_bands map_security_protocol collect_broadcasting_aps
  map_ssid_detail id controller networks clients devices w =
      let ssid_clients = clients_on clients w in
      record {
        id = id;
        name = w.name;
        uri = lit "/network/ssids/" ++ id;
        bands = map_bands w.wlan_bands;
        vlan_id = vlan_of networks w;
        num_clients = length ssid_clients;
        clients = map (client_ref controller) ssid_clients;
        broadcasting_aps =
            collect_broadcasting_aps controller w.id
              (index_by (λ (d : UniFiDevice). normalize_mac d.mac) devices);
        security_protocol = map_security_protocol w;
      }

  is_ssid : Text → UniFiWlanConf → Bool
  is_ssid name w = to_kebab w.name == name

  -- The search for the WLAN, among the disabled ones too.
  ssid_found :
      Text
      → Text
      → List UniFiNetworkConf
      → List UniFiSta
      → List UniFiDevice
      → Option UniFiWlanConf
      → Result SsidDetail
  unfolding map_ssid_detail
  ssid_found id controller networks clients devices none = err (missing (lit "SSID not found: ") id)
  ssid_found id controller networks clients devices (some w) =
      ok (map_ssid_detail id controller networks clients devices w)

  module _ (s : Service) where
    ssids_round : BackendEntry UniFiBackend → Round Ssid
    unfolding map_ssid
    ssids_round entry =
        if is_unavailable s.monitor entry.name
        then skip
        else or_warn (lit "skipping backend on get wlan conf error") entry.name
            entry.backend.get_wlan_conf
            (λ wlans.
              or_warn (lit "skipping backend on get network conf error") entry.name
                entry.backend.get_network_conf
                (λ networks.
                  or_warn (lit "skipping backend on get clients error") entry.name
                    entry.backend.get_clients
                    (λ clients.
                      next
                        (map (map_ssid entry.name networks clients)
                          (filter (λ (w : UniFiWlanConf). w.enabled) wlans))
                        [])))

    pub list_ssids : Logged (List Ssid)
    unfolding ssids_round
    list_ssids = for_each ssids_round s.backends

    pub get_ssid : Text → Result SsidDetail
    unfolding ssid_found is_ssid
    get_ssid id = do
      (controller, name) ← parse_id id
      backend ← find_backend s controller
      wlans ← wrapping (plain (lit "get wlan conf") ∷ []) backend.get_wlan_conf
      networks ← wrapping (plain (lit "get network conf") ∷ []) backend.get_network_conf
      clients ← wrapping (plain (lit "get clients") ∷ []) backend.get_clients
      devices ← wrapping (plain (lit "get devices") ∷ []) backend.get_devices
      ssid_found id controller networks clients devices (find (is_ssid name) wlans)
