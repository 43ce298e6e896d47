-- ===== src/Network/Devices/Tests.antt =====
-- A controller with one switch.
use homelab_api.Base.{lit, none, [], ◌∷◌, ◌≡◌, ◌≢◌, refl, inl, inr, subst, In, arith}
use homelab_api.Base.Int.{pos}
use homelab_api.Base.Strings.Lower.{Unicode, to_lower}
use homelab_api.Base.Result.{ok}
use homelab_api.Base.Loop.{for_each}
use homelab_api.Adapters.Registry.{BackendEntry}
use homelab_api.Adapters.UniFi.{UniFiDevice}
use homelab_api.Network.Kebab.{to_kebab}
use homelab_api.Network.Service.{UniFiBackend, Service}
use homelab_api.Network.Service.Laws.{IsRoutable}
use homelab_api.Network.DevicePorts.{Strconv}
use homelab_api.Network.Devices.{NetworkDevice, device_to_list, list_devices, devices_round}
use homelab_api.Network.Devices.Laws.{Answers, Origin, IsFound, get_device-list_devices}

abbrev ascii_only : Unicode
ascii_only = record { lower = λ s. s }

abbrev no_floats : Strconv
no_floats = record { parse_float = λ s. none }

abbrev switch : UniFiDevice
switch = record {
  id = lit "1";
  mac = lit "aa:01";
  name = lit "Core Switch";
  model = lit "US8";
  type = lit "usw";
  state = pos 1;
  ip = lit "10.0.0.2";
  version = lit "7";
  uptime = pos 60;
  user_num_sta = pos 0;
  guest_num_sta = pos 0;
  tx_bytes = pos 0;
  rx_bytes = pos 0;
  port_table = [];
  vap_table = [];
  uplink = none;
  wan1 = none;
  wan2 = none;
}

abbrev home : UniFiBackend
home = record {
  get_devices = ok (switch ∷ []);
  get_clients = ok [];
  get_active_clients = ok [];
  get_offline_clients = λ days. ok [];
  get_all_clients = λ days. ok [];
  get_wlan_conf = ok [];
  get_network_conf = ok [];
}

abbrev one_controller : Service
one_controller = record {
  backends = record { name = lit "home"; backend = home } ∷ [];
  monitor = none;
  history_days = [];
}

abbrev listed : NetworkDevice
listed = device_to_list ⦃u = ascii_only⦄ (lit "home") switch

one_controller_listed :
    (list_devices ⦃u = ascii_only⦄ ⦃strconv = no_floats⦄ one_controller).result ≡ ok (listed ∷ [])
unfolding list_devices devices_round for_each
one_controller_listed = refl

one_controller-IsRoutable : IsRoutable one_controller
unfolding lit
one_controller-IsRoutable = record {
  distinct = (tt, tt);
  plain = ((λ e. cc, (ground arith, (ground arith, (ground arith, (ground arith, tt))))), tt);
}

one_controller-Answers :
    (entry : BackendEntry UniFiBackend) → In entry one_controller.backends → Answers entry.backend
one_controller-Answers entry (inl e) =
    subst (λ (x : BackendEntry UniFiBackend). Answers x.backend) e
      (record { clients = []; got_clients = refl; confs = []; got_confs = refl })
one_controller-Answers entry (inr i) = absurd i

switch_slug : to_kebab ⦃u = ascii_only⦄ listed.name ≢ []
unfolding to_kebab to_lower lit device_to_list
switch_slug = λ e. cc

get_device-list_devices_example :
    (o : Origin ⦃u = ascii_only⦄ ⦃strconv = no_floats⦄ one_controller listed) × ((a : Answers
        o.entry.backend)
      × IsFound ⦃u = ascii_only⦄ ⦃strconv = no_floats⦄ one_controller listed o a)
get_device-list_devices_example =
    get_device-list_devices ⦃u = ascii_only⦄ ⦃strconv = no_floats⦄ one_controller (listed ∷ [])
      listed one_controller_listed (inl refl) one_controller-IsRoutable switch_slug
      one_controller-Answers
