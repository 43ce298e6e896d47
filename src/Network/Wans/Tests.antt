-- ===== src/Network/Wans/Tests.antt =====
-- A controller with one WAN.
use homelab_api.Base.{lit, ◌==◌, false, none, [], ◌∷◌, ◌≡◌, ◌≢◌, refl, inl, arith}
use homelab_api.Base.Int.{pos}
use homelab_api.Base.Float.{null}
use homelab_api.Base.Strings.Lower.{Unicode, to_lower}
use homelab_api.Base.Result.{ok}
use homelab_api.Base.Loop.{for_each}
use homelab_api.Adapters.UniFi.{UniFiNetworkConf}
use homelab_api.Network.Kebab.{to_kebab}
use homelab_api.Network.Service.{UniFiBackend, Service, composite_id}
use homelab_api.Network.Service.Laws.{IsRoutable}
use homelab_api.Network.Wans.{Wan, WanDetail, disconnected, list_wans, get_wan, build_wan, is_wan}
use homelab_api.Network.Wans.Laws.{get_wan-list_wans}

abbrev ascii_only : Unicode
ascii_only = record { lower = λ s. s }

abbrev fiber : UniFiNetworkConf
fiber = record {
  id = lit "1";
  name = lit "fiber";
  purpose = lit "wan";
  network_group = [];
  vlan = null;
  vlan_enabled = false;
  ip_subnet = [];
  dhcpd_enabled = false;
  dhcp_relay_enabled = false;
  dhcpd_start = [];
  dhcpd_stop = [];
  dhcpd_dns1 = [];
  dhcpd_dns2 = [];
  wan_network_group = lit "WAN";
  wan_dns1 = [];
  wan_dns2 = [];
}

abbrev home : UniFiBackend
home = record {
  get_devices = ok [];
  get_clients = ok [];
  get_active_clients = ok [];
  get_offline_clients = λ days. ok [];
  get_all_clients = λ days. ok [];
  get_wlan_conf = ok [];
  get_network_conf = ok (fiber ∷ []);
}

abbrev one_controller : Service
one_controller = record {
  backends = record { name = lit "home"; backend = home } ∷ [];
  monitor = none;
  history_days = [];
}

abbrev listed : Wan
listed = record {
  id = lit "home.fiber";
  uri = lit "/network/wans/home.fiber";
  name = lit "fiber";
  ip_address = [];
  status = disconnected;
  uptime = pos 0;
}

one_controller_listed : (list_wans ⦃u = ascii_only⦄ one_controller).result ≡ ok (listed ∷ [])
unfolding list_wans for_each ◌==◌ lit build_wan to_kebab to_lower composite_id is_wan
one_controller_listed = refl

one_controller-IsRoutable : IsRoutable one_controller
unfolding lit
one_controller-IsRoutable = record {
  distinct = (tt, tt);
  plain = ((λ e. cc, (ground arith, (ground arith, (ground arith, (ground arith, tt))))), tt);
}

listed_named : to_kebab ⦃u = ascii_only⦄ listed.name ≢ []
unfolding to_kebab to_lower lit
listed_named e = cc

get_wan-list_wans_example :
    (d : WanDetail) × (get_wan ⦃u = ascii_only⦄ one_controller listed.id ≡ ok d)
    × (d.id ≡ listed.id)
get_wan-list_wans_example =
    get_wan-list_wans ⦃u = ascii_only⦄ one_controller (listed ∷ []) listed one_controller_listed
      (inl refl) one_controller-IsRoutable listed_named
