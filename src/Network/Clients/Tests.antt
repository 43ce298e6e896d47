-- ===== src/Network/Clients/Tests.antt =====
-- A controller with one client in its history.
use homelab_api.Base.{lit, ◌==◌, true, some, none, [], ◌∷◌, ◌≡◌, refl, inl, inr, arith, subst, In}
use homelab_api.Base.Int.{pos}
use homelab_api.Base.Strings.Lower.{Unicode, to_lower}
use homelab_api.Base.Result.{ok}
use homelab_api.Base.Loop.{for_each}
use homelab_api.Adapters.Registry.{BackendEntry}
use homelab_api.Adapters.UniFi.{UniFiClientV2}
use homelab_api.Network.Kebab.{to_kebab, normalize_mac}
use homelab_api.Network.Names.{
  wired, client_name_v2, client_suffix_v2, mac_hex_prefix, map_connection_type,
}
use homelab_api.Network.Service.{UniFiBackend, Service, composite_id}
use homelab_api.Network.Service.Laws.{IsRoutable}
use homelab_api.Network.Clients.{NetworkClient, client_to_list_v2, list_clients}
use homelab_api.Network.Clients.Laws.{Answers, IsFound, get_client-list_clients}

abbrev ascii_only : Unicode
ascii_only = record { lower = λ s. s }

abbrev printer : UniFiClientV2
printer = record {
  id = lit "1";
  mac = lit "AA:BB";
  display_name = [];
  name = some (lit "Printer");
  hostname = none;
  ip = [];
  last_ip = [];
  is_wired = true;
  status = lit "offline";
  last_uplink_name = [];
  uptime = pos 0;
  essid = none;
  signal = none;
  last_seen = pos 0;
  last_uplink_mac = [];
}

abbrev home : UniFiBackend
home = record {
  get_devices = ok [];
  get_clients = ok [];
  get_active_clients = ok [];
  get_offline_clients = λ days. ok (printer ∷ []);
  get_all_clients = λ days. ok (printer ∷ []);
  get_wlan_conf = ok [];
  get_network_conf = ok [];
}

abbrev one_controller : Service
one_controller = record {
  backends = record { name = lit "home"; backend = home } ∷ [];
  monitor = none;
  history_days = [];
}

abbrev listed : NetworkClient
listed = record {
  id = lit "home.printer-aa";
  uri = lit "/network/clients/home.printer-aa";
  name = lit "Printer";
  mac = lit "aa:bb";
  connection_type = wired;
  status = lit "offline";
  ip = none;
}

one_controller_listed :
    (list_clients ⦃u = ascii_only⦄ one_controller (lit "offline")).result ≡ ok (listed ∷ [])
unfolding list_clients for_each ◌==◌ lit client_to_list_v2 to_kebab to_lower composite_id
    client_suffix_v2 client_name_v2 mac_hex_prefix map_connection_type normalize_mac
one_controller_listed = refl

one_controller-IsRoutable : IsRoutable one_controller
unfolding lit
one_controller-IsRoutable = record {
  distinct = (tt, tt);
  plain = ((λ e. cc, (ground arith, (ground arith, (ground arith, (ground arith, tt))))), tt);
}

home-Answers : Answers home
home-Answers = record { devices = []; got_devices = refl; clients = []; got_clients = refl }

one_controller-Answers :
    (entry : BackendEntry UniFiBackend) → In entry one_controller.backends → Answers entry.backend
one_controller-Answers entry (inl e) =
    subst (λ (x : BackendEntry UniFiBackend). Answers x.backend) e home-Answers
one_controller-Answers entry (inr i) = absurd i

get_client-list_clients_example : IsFound ⦃u = ascii_only⦄ one_controller listed.id
get_client-list_clients_example =
    get_client-list_clients ⦃u = ascii_only⦄ one_controller (listed ∷ []) listed
      one_controller_listed (inl refl) one_controller-IsRoutable one_controller-Answers
