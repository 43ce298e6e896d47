-- ===== src/Network/Topology/Tests.antt =====
-- A switch, an access point behind it, and a wireless client.
use homelab_api.Base.{lit, ◌==◌, true, false, some, none, [], ◌∷◌, ◌≡◌, refl}
use homelab_api.Base.Int.{pos}
use homelab_api.Base.Dict.{lookup, insert, index_by}
use homelab_api.Base.Result.{ok}
use homelab_api.Base.Strings.Lower.{Unicode, to_lower}
use homelab_api.Adapters.UniFi.{UniFiDevice, UniFiSta}
use homelab_api.Network.Kebab.{normalize_mac}
use homelab_api.Network.Service.{UniFiBackend, Service}
use homelab_api.Network.Refs.{build_mac_to_device}
use homelab_api.Network.Topology.{NetworkTopology, towards, uplink_edge, build_online_client_edge}
use homelab_api.Network.Topology.Graph.{
  each, device_pass, online_pass, offline_pass, offline_clients, client_passes, device_passes,
  backend_passes, topology_of, get_topology, all_passes,
}
use homelab_api.Network.Topology.Joined.{IsJoined, get_topology-IsJoined}

abbrev ascii_only : Unicode
ascii_only = record { lower = λ s. s }

abbrev switch : UniFiDevice
switch = record {
  id = lit "1";
  mac = lit "aa:01";
  name = lit "Switch";
  model = lit "US8";
  type = lit "usw";
  state = pos 1;
  ip = lit "10.0.0.2";
  version = lit "7";
  uptime = pos 60;
  user_num_sta = pos 0;
  guest_num_sta = pos 0;
  tx_bytes = pos 0;
  rx_bytes = pos 0;
  port_table = [];
  vap_table = [];
  uplink = none;
  wan1 = none;
  wan2 = none;
}

abbrev access_point : UniFiDevice
access_point = record switch {
  id = lit "2";
  mac = lit "aa:02";
  name = lit "Attic";
  type = lit "uap";
  uplink = some (record {
    uplink_mac = lit "AA:01";
    uplink_device_name = lit "Switch";
    uplink_remote_port = some (pos 3);
    port_idx = none;
    speed = pos 1000;
    tx_bytes_r = record { thousandths = pos 0 };
    rx_bytes_r = record { thousandths = pos 0 };
    tx_bytes = pos 0;
    rx_bytes = pos 0;
  });
}

abbrev phone : UniFiSta
phone = record {
  mac = lit "bb:01";
  hostname = none;
  name = some (lit "Phone");
  ip = lit "10.0.0.9";
  is_wired = false;
  essid = some (lit "Home");
  signal = some (pos 40);
  uptime = pos 5;
  sw_mac = [];
  sw_port = pos 0;
  last_uplink_name = [];
  ap_mac = lit "aa:02";
  wired_rate_mbps = pos 0;
}

abbrev home : UniFiBackend
home = record {
  get_devices = ok (switch ∷ access_point ∷ []);
  get_clients = ok (phone ∷ []);
  get_active_clients = ok [];
  get_offline_clients = λ days. ok [];
  get_all_clients = λ days. ok [];
  get_wlan_conf = ok [];
  get_network_conf = ok [];
}

abbrev one_controller : Service
one_controller = record {
  backends = record { name = lit "home"; backend = home } ∷ [];
  monitor = none;
  history_days = [];
}

abbrev graph : NetworkTopology
graph = all_passes ⦃u = ascii_only⦄ (lit "home") (switch ∷ access_point ∷ []) (phone ∷ []) []

built : get_topology ⦃u = ascii_only⦄ one_controller true ≡ ok graph
unfolding get_topology topology_of backend_passes device_passes client_passes offline_clients each
    device_pass online_pass offline_pass uplink_edge build_online_client_edge towards ◌==◌ lookup
    lit build_mac_to_device index_by insert normalize_mac to_lower
built = refl

get_topology-IsJoined_example : IsJoined graph
get_topology-IsJoined_example =
    get_topology-IsJoined ⦃u = ascii_only⦄ one_controller true graph built
