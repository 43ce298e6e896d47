-- ===== src/Network/Ports/Tests.antt =====
-- A switch with a port that is up and one that is down.
use homelab_api.Base.{lit, Bool, ◌↔◌, true, false, some, none, List, [], ◌∷◌, filter, ◌≡◌}
use homelab_api.Base.Int.{pos}
use homelab_api.Base.Float.{null, Float64}
use homelab_api.Base.Strings.Lower.{Unicode}
use homelab_api.Base.Result.{ok}
use homelab_api.Adapters.UniFi.{UniFiDevice, UniFiPortEntry}
use homelab_api.Network.Service.{UniFiBackend, Service}
use homelab_api.Network.DevicePorts.{Strconv, up}
use homelab_api.Network.Ports.{NetworkPort, ListNetworkPortsParams, list_ports}
use homelab_api.Network.Ports.Filter.{Matches}
use homelab_api.Network.Ports.Laws.{no_filter, list_ports-Matches}

abbrev ascii_only : Unicode
ascii_only = record { lower = λ s. s }

abbrev no_floats : Strconv
no_floats = record { parse_float = λ s. none }

abbrev zero_rate : Float64
zero_rate = record { thousandths = pos 0 }

abbrev first_port : UniFiPortEntry
first_port = record {
  ifname = lit "eth0";
  port_idx = pos 1;
  up = true;
  speed = pos 1000;
  port_poe = false;
  poe_mode = [];
  poe_power = [];
  tx_bytes = pos 0;
  rx_bytes = pos 0;
  tx_bytes_r = zero_rate;
  rx_bytes_r = zero_rate;
  name = lit "Port 1";
  forward = lit "all";
  native_network_conf_id = none;
  tagged_vlan_mgmt = [];
  excluded_network_conf_ids = [];
  sfp_found = none;
  uptime = some (pos 60);
  aggregated_by = null;
}

abbrev switch : UniFiDevice
switch = record {
  id = lit "1";
  mac = lit "aa:01";
  name = lit "Switch";
  model = lit "US8";
  type = lit "usw";
  state = pos 1;
  ip = lit "10.0.0.2";
  version = lit "7";
  uptime = pos 60;
  user_num_sta = pos 0;
  guest_num_sta = pos 0;
  tx_bytes = pos 0;
  rx_bytes = pos 0;
  port_table = first_port ∷ record first_port { port_idx = pos 2; up = false } ∷ [];
  vap_table = [];
  uplink = none;
  wan1 = none;
  wan2 = none;
}

abbrev home : UniFiBackend
home = record {
  get_devices = ok (switch ∷ []);
  get_clients = ok [];
  get_active_clients = ok [];
  get_offline_clients = λ days. ok [];
  get_all_clients = λ days. ok [];
  get_wlan_conf = ok [];
  get_network_conf = ok [];
}

abbrev one_controller : Service
one_controller = record {
  backends = record { name = lit "home"; backend = home } ∷ [];
  monitor = none;
  history_days = [];
}

abbrev only_up : ListNetworkPortsParams
only_up = record no_filter { state = some up }

list_ports-Matches_example :
    (all : List NetworkPort) × ((list_ports ⦃u = ascii_only⦄ ⦃strconv = no_floats⦄ one_controller
        no_filter).result
      ≡ ok all)
    × ((kept : NetworkPort → Bool) × ((np : NetworkPort) → (kept np ≡ true) ↔ Matches only_up np)
        × ((list_ports ⦃u = ascii_only⦄ ⦃strconv = no_floats⦄ one_controller only_up).result
            ≡ ok (filter kept all)))
list_ports-Matches_example =
    list_ports-Matches ⦃u = ascii_only⦄ ⦃strconv = no_floats⦄ only_up one_controller
