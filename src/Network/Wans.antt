-- ===== src/Network/Wans.antt =====
-- internal/network/wans_service.go: the WAN interfaces.
pub mod Laws
mod Tests
use homelab_api.Base.{
  Text, lit, ◌==◌, Bool, not, ◌&&◌, ◌||◌, if◌then◌else◌, Option, some, none, List, [], ◌∷◌, ◌++◌,
  map, find, filter,
}
use homelab_api.Base.Int.{ℤ, pos}
use homelab_api.Base.Strings.Lower.{Unicode}
use homelab_api.Base.Result.{plain, Result, ok, err, ◌>>=◌, wrapping}
use homelab_api.Base.Loop.{Round, next, skip, Logged, for_each, or_warn}
use homelab_api.Adapters.Registry.{BackendEntry}
use homelab_api.Adapters.Listing.{is_unavailable}
use homelab_api.Adapters.UniFi.{UniFiDevice, UniFiWanIface, UniFiNetworkConf}
use homelab_api.Network.Kebab.{to_kebab}
use homelab_api.Network.Fields.{collect_dns_servers}
use homelab_api.Network.Service.{
  UniFiBackend, Service, find_backend, parse_id, composite_id, missing,
}

pub data WanStatus : Type 0 where
  connected disconnected : WanStatus

pub record Wan : Type 0 where
  pub id : Text
  pub uri : Text
  pub name : Text
  pub ip_address : Text
  pub status : WanStatus
  pub uptime : ℤ

pub record WanDetail : Type 0 where
  pub id : Text
  pub uri : Text
  pub name : Text
  pub ip_address : Text
  pub status : WanStatus
  pub uptime : ℤ
  pub dns_servers : List Text

unfoldable pub is_gateway_type : Text → Bool
is_gateway_type t = t == lit "ugw" || t == lit "udm" || t == lit "udm-pro"

find_gateway : List UniFiDevice → Option UniFiDevice
find_gateway devices = find (λ (d : UniFiDevice). is_gateway_type d.type) devices

resolve_wan_iface : Option UniFiDevice → Text → Option UniFiWanIface
resolve_wan_iface none network_group = none
resolve_wan_iface (some gw) network_group =
    if network_group == lit "WAN"
    then gw.wan1
    else if network_group == lit "WAN2"
    then gw.wan2
    else none

-- wanLiveFields: the address, the status and the uptime.
live_ip : Option UniFiWanIface → Text
live_ip none = []
live_ip (some iface) = iface.ip

live_status : Option UniFiWanIface → WanStatus
live_status none = disconnected
live_status (some iface) = if iface.up then connected else disconnected

live_uptime : Option UniFiDevice → ℤ
live_uptime none = pos 0
live_uptime (some gw) = gw.uptime

iface_dns : Option UniFiWanIface → List Text
iface_dns none = []
iface_dns (some iface) = collect_dns_servers iface.dns

-- What is configured, or else what the interface reports.
first_dns : List Text → List Text → List Text
first_dns [] live = live
first_dns (d ∷ ds) live = d ∷ ds

wan_dns_servers : Option UniFiWanIface → UniFiNetworkConf → List Text
unfolding iface_dns first_dns
wan_dns_servers iface n =
    first_dns (collect_dns_servers (n.wan_dns1 ∷ n.wan_dns2 ∷ [])) (iface_dns iface)

is_wan : UniFiNetworkConf → Bool
is_wan n = n.purpose == lit "wan"

module _ ⦃u : Unicode⦄ where
  wan_id : Text → UniFiNetworkConf → Text
  wan_id controller n = composite_id controller (to_kebab n.name)

  build_wan : Text → Option UniFiDevice → UniFiNetworkConf → Wan
  unfolding wan_id resolve_wan_iface live_ip live_status live_uptime
  build_wan controller gateway n =
      let iface = resolve_wan_iface gateway n.wan_network_group in
      let id = wan_id controller n in
      record {
        id = id;
        uri = lit "/network/wans/" ++ id;
        name = n.name;
        ip_address = live_ip iface;
        status = live_status iface;
        uptime = live_uptime gateway;
      }

  build_wan_detail : Text → Option UniFiDevice → UniFiNetworkConf → WanDetail
  unfolding wan_id resolve_wan_iface live_ip live_status live_uptime wan_dns_servers
  build_wan_detail controller gateway n =
      let iface = resolve_wan_iface gateway n.wan_network_group in
      let id = wan_id controller n in
      record {
        id = id;
        uri = lit "/network/wans/" ++ id;
        name = n.name;
        ip_address = live_ip iface;
        status = live_status iface;
        uptime = live_uptime gateway;
        dns_servers = wan_dns_servers iface n;
      }

  -- The loop over the networks.
  find_wan : Text → UniFiNetworkConf → Bool
  find_wan name n = is_wan n && to_kebab n.name == name

  module _ (s : Service) where
    wans_round : BackendEntry UniFiBackend → Round Wan
    unfolding find_gateway
    wans_round entry =
        if is_unavailable s.monitor entry.name
        then skip
        else or_warn (lit "skipping backend on get network conf error") entry.name
            entry.backend.get_network_conf
            (λ networks.
              or_warn (lit "skipping backend on get devices error") entry.name
                entry.backend.get_devices
                (λ devices.
                  next (map (build_wan entry.name (find_gateway devices)) (filter is_wan networks))
                    []))

    pub list_wans : Logged (List Wan)
    unfolding wans_round
    list_wans = for_each wans_round s.backends

    pub get_wan : Text → Result WanDetail
    unfolding find_wan find_gateway
    get_wan id = do
      (controller, name) ← parse_id id
      backend ← find_backend s controller
      networks ← wrapping (plain (lit "get network conf") ∷ []) backend.get_network_conf
      devices ← wrapping (plain (lit "get devices") ∷ []) backend.get_devices
      elim (find (find_wan name) networks) [
        | some n ↦ ok (build_wan_detail controller (find_gateway devices) n)
        | none ↦ err (missing (lit "WAN not found: ") id)
      ]
