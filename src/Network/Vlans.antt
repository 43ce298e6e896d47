-- ===== src/Network/Vlans.antt =====
-- internal/network/vlans_service.go: the VLANs.
pub mod Laws
mod Tests
use Prim.Native.Nat.{bit_or}
use homelab_api.Base.{
  ℕ, ◌-◌, Text, lit, ◌==◌, Bool, not, ◌&&◌, ◌||◌, if◌then◌else◌, Option, some, none, List, [], ◌∷◌,
  ◌++◌, map, find, filter,
}
use homelab_api.Base.Int.{ℤ}
use homelab_api.Base.Strings.Lower.{Unicode}
use homelab_api.Base.Result.{plain, Result, ok, err, ◌>>=◌, wrapping}
use homelab_api.Base.Loop.{Round, next, skip, Logged, for_each, or_warn}
use homelab_api.Adapters.Registry.{BackendEntry}
use homelab_api.Adapters.Listing.{is_unavailable}
use homelab_api.Adapters.UniFi.{UniFiNetworkConf}
use homelab_api.Network.Kebab.{to_kebab}
use homelab_api.Network.Fields.{
  extract_vlan_id, DhcpMode, server, relay, disabled, map_dhcp_mode, collect_dns_servers,
}
use homelab_api.Network.Service.{
  UniFiBackend, Service, find_backend, parse_id, composite_id, missing,
}

-- The four bytes of an IPv4 address or mask.
pub record Quad : Type 0 where
  pub a : ℕ
  pub b : ℕ
  pub c : ℕ
  pub d : ℕ

-- What net.ParseCIDR returns for an IPv4 network: ip.String(), ipnet.String(), ipnet.IP.To4() and
-- ipnet.Mask. An IPv6 network is left out: its To4() is nil, and parseIPSubnet panics.
pub record Cidr : Type 0 where
  pub ip : Text
  pub ipnet : Text
  pub network : Quad
  pub mask : Quad

-- net.ParseCIDR, none for an error, and the String method of a net.IP of four bytes.
pub record Net : Type 0 where
  pub parse_cidr : Text → Option Cidr
  pub quad_string : Quad → Text

pub record Subnet : Type 0 where
  pub subnet : Text
  pub gateway_ip : Text
  pub broadcast_ip : Text

-- network | ^mask on a byte
unfoldable pub broadcast_byte : ℕ → ℕ → ℕ
broadcast_byte network mask = bit_or network (255 - mask)

unfoldable pub broadcast : Cidr → Quad
broadcast n = record {
  a = broadcast_byte n.network.a n.mask.a;
  b = broadcast_byte n.network.b n.mask.b;
  c = broadcast_byte n.network.c n.mask.c;
  d = broadcast_byte n.network.d n.mask.d;
}

module _ ⦃net : Net⦄ where
  unfoldable pub subnet_of : Text → Option Cidr → Subnet
  subnet_of ip_subnet none = record { subnet = ip_subnet; gateway_ip = []; broadcast_ip = [] }
  subnet_of ip_subnet (some n) = record {
    subnet = n.ipnet;
    gateway_ip = n.ip;
    broadcast_ip = net.quad_string (broadcast n);
  }

  unfoldable pub parse_ip_subnet : Text → Subnet
  parse_ip_subnet ip_subnet =
      if ip_subnet == []
      then record { subnet = []; gateway_ip = []; broadcast_ip = [] }
      else subnet_of ip_subnet (net.parse_cidr ip_subnet)

pub record Vlan : Type 0 where
  pub id : Text
  pub uri : Text
  pub name : Text
  pub vlan_id : ℤ
  pub subnet : Text

pub record DhcpRange : Type 0 where
  pub start : Text
  pub end : Text

pub record VlanDetail : Type 0 where
  pub id : Text
  pub uri : Text
  pub name : Text
  pub vlan_id : ℤ
  pub subnet : Text
  pub gateway_ip : Text
  pub broadcast_ip : Text
  pub dhcp_mode : DhcpMode
  pub dns_servers : List Text
  pub dhcp_range : Option DhcpRange
  pub relay_server : Option Text

unfoldable pub is_lan_network : UniFiNetworkConf → Bool
is_lan_network n = n.purpose == lit "corporate" || n.purpose == lit "guest"

abbrev range_of : DhcpMode → UniFiNetworkConf → Option DhcpRange
range_of server n = some (record { start = n.dhcpd_start; end = n.dhcpd_stop })
range_of relay n = none
range_of disabled n = none

abbrev relay_of : DhcpMode → UniFiNetworkConf → Option Text
relay_of relay n = some n.dhcpd_start
relay_of server n = none
relay_of disabled n = none

module _ ⦃u : Unicode⦄ ⦃net : Net⦄ where
  unfoldable pub network_to_vlan : Text → UniFiNetworkConf → Vlan
  network_to_vlan controller n =
      let id = composite_id controller (to_kebab n.name) in
      record {
        id = id;
        uri = lit "/network/vlans/" ++ id;
        name = n.name;
        vlan_id = extract_vlan_id n.vlan;
        subnet = (parse_ip_subnet n.ip_subnet).subnet;
      }

  unfoldable pub build_vlan_detail : Text → UniFiNetworkConf → VlanDetail
  build_vlan_detail controller n =
      let id = composite_id controller (to_kebab n.name) in
      let mode = map_dhcp_mode n.dhcpd_enabled n.dhcp_relay_enabled in
      record {
        id = id;
        uri = lit "/network/vlans/" ++ id;
        name = n.name;
        vlan_id = extract_vlan_id n.vlan;
        subnet = (parse_ip_subnet n.ip_subnet).subnet;
        gateway_ip = (parse_ip_subnet n.ip_subnet).gateway_ip;
        broadcast_ip = (parse_ip_subnet n.ip_subnet).broadcast_ip;
        dhcp_mode = mode;
        dns_servers = collect_dns_servers (n.dhcpd_dns1 ∷ n.dhcpd_dns2 ∷ []);
        dhcp_range = range_of mode n;
        relay_server = relay_of mode n;
      }

  -- The test of GetVLAN's loop.
  unfoldable pub is_vlan : Text → UniFiNetworkConf → Bool
  is_vlan name n = is_lan_network n && to_kebab n.name == name

  module _ (s : Service) where
    unfoldable pub vlans_round : BackendEntry UniFiBackend → Round Vlan
    vlans_round entry =
        if is_unavailable s.monitor entry.name
        then skip
        else or_warn (lit "skipping backend on get network conf error") entry.name
            entry.backend.get_network_conf
            (λ networks.
              next (map (network_to_vlan entry.name) (filter is_lan_network networks)) [])

    unfoldable pub list_vlans : Logged (List Vlan)
    list_vlans = for_each vlans_round s.backends

    unfoldable pub get_vlan : Text → Result VlanDetail
    get_vlan id = do
      (controller, name) ← parse_id id
      backend ← find_backend s controller
      networks ← wrapping (plain (lit "get network conf") ∷ []) backend.get_network_conf
      elim (find (is_vlan name) networks) [
        | some n ↦ ok (build_vlan_detail controller n)
        | none ↦ err (missing (lit "VLAN not found: ") id)
      ]
