-- ===== src/Network/Vlans/Tests.antt =====
-- A controller with one corporate network.
use homelab_api.Base.{lit, ◌==◌, true, false, some, none, [], ◌∷◌, ◌≡◌, ◌≢◌, refl, inl, arith}
use homelab_api.Base.Float.{null}
use homelab_api.Base.Strings.Lower.{Unicode, to_lower}
use homelab_api.Base.Result.{ok}
use homelab_api.Base.Loop.{for_each}
use homelab_api.Adapters.UniFi.{UniFiNetworkConf}
use homelab_api.Network.Kebab.{to_kebab}
use homelab_api.Network.Service.{UniFiBackend, Service}
use homelab_api.Network.Service.Laws.{IsRoutable}
use homelab_api.Network.Vlans.{
  Net, Vlan, network_to_vlan, is_lan_network, list_vlans, vlans_round, broadcast, broadcast_byte,
}
use homelab_api.Network.Vlans.Laws.{Origin, IsFound, get_vlan-list_vlans}

abbrev ascii_only : Unicode
ascii_only = record { lower = λ s. s }

-- It knows the one network of the test.
abbrev one_net : Net
one_net = record {
  parse_cidr = λ s. some (record {
    ip = lit "192.168.1.1";
    ipnet = lit "192.168.1.0/24";
    network = record { a = 192; b = 168; c = 1; d = 0 };
    mask = record { a = 255; b = 255; c = 255; d = 0 };
  });
  quad_string = λ q. lit "192.168.1.255";
}

last_address :
    broadcast (record {
      ip = [];
      ipnet = [];
      network = record { a = 192; b = 168; c = 1; d = 0 };
      mask = record { a = 255; b = 255; c = 255; d = 0 };
    })
    ≡ record { a = 192; b = 168; c = 1; d = 255 }
unfolding broadcast broadcast_byte
last_address = refl

abbrev default_network : UniFiNetworkConf
default_network = record {
  id = lit "n1";
  name = lit "Default";
  purpose = lit "corporate";
  network_group = lit "LAN";
  vlan = null;
  vlan_enabled = false;
  ip_subnet = lit "192.168.1.1/24";
  dhcpd_enabled = true;
  dhcp_relay_enabled = false;
  dhcpd_start = lit "192.168.1.6";
  dhcpd_stop = lit "192.168.1.254";
  dhcpd_dns1 = [];
  dhcpd_dns2 = [];
  wan_network_group = [];
  wan_dns1 = [];
  wan_dns2 = [];
}

abbrev home : UniFiBackend
home = record {
  get_devices = ok [];
  get_clients = ok [];
  get_active_clients = ok [];
  get_offline_clients = λ days. ok [];
  get_all_clients = λ days. ok [];
  get_wlan_conf = ok [];
  get_network_conf = ok (default_network ∷ []);
}

abbrev one_controller : Service
one_controller = record {
  backends = record { name = lit "home"; backend = home } ∷ [];
  monitor = none;
  history_days = [];
}

abbrev listed : Vlan
listed = network_to_vlan ⦃u = ascii_only⦄ ⦃net = one_net⦄ (lit "home") default_network

one_controller_listed :
    (list_vlans ⦃u = ascii_only⦄ ⦃net = one_net⦄ one_controller).result ≡ ok (listed ∷ [])
unfolding list_vlans vlans_round for_each is_lan_network ◌==◌ lit
one_controller_listed = refl

one_controller-IsRoutable : IsRoutable one_controller
unfolding lit
one_controller-IsRoutable = record {
  distinct = (tt, tt);
  plain = ((λ e. cc, (ground arith, (ground arith, (ground arith, (ground arith, tt))))), tt);
}

default_slug : to_kebab ⦃u = ascii_only⦄ listed.name ≢ []
unfolding to_kebab to_lower lit network_to_vlan
default_slug = λ e. cc

get_vlan-list_vlans_example :
    (o : Origin ⦃u = ascii_only⦄ ⦃net = one_net⦄ one_controller listed) × IsFound ⦃u = ascii_only⦄
      ⦃net = one_net⦄ one_controller listed o
get_vlan-list_vlans_example =
    get_vlan-list_vlans ⦃u = ascii_only⦄ ⦃net = one_net⦄ one_controller (listed ∷ []) listed
      one_controller_listed (inl refl) one_controller-IsRoutable default_slug
