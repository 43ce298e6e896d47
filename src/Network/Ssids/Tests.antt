-- ===== src/Network/Ssids/Tests.antt =====
-- A controller with one wireless network and one client on it.
use homelab_api.Base.{
  lit, ◌==◌, true, false, some, none, List, [], ◌∷◌, ◌≡◌, ◌≢◌, refl, inl, inr, arith, subst, filter,
  In,
}
use homelab_api.Base.Int.{pos}
use homelab_api.Base.Dict.{lookup, insert, index_by}
use homelab_api.Base.Strings.Lower.{Unicode, to_lower}
use homelab_api.Base.Result.{ok}
use homelab_api.Base.Loop.{for_each}
use homelab_api.Adapters.Registry.{BackendEntry}
use homelab_api.Adapters.UniFi.{UniFiDevice, UniFiSta, UniFiWlanConf}
use homelab_api.Network.Kebab.{to_kebab}
use homelab_api.Network.Service.{UniFiBackend, Service, composite_id}
use homelab_api.Network.Service.Laws.{IsRoutable}
use homelab_api.Network.Ssids.{
  Ssid, band_5g, or_no_clients, build_clients_by_ssid, map_ssid, list_ssids,
}
use homelab_api.Network.Ssids.Laws.{is_on, lookup-build_clients_by_ssid}
use homelab_api.Network.Ssids.Lookup.{Origin, IsFound, get_ssid-list_ssids}

abbrev ascii_only : Unicode
ascii_only = record { lower = λ s. s }

abbrev phone : UniFiSta
phone = record {
  mac = lit "aa:bb";
  hostname = none;
  name = none;
  ip = [];
  is_wired = false;
  essid = some (lit "Home");
  signal = none;
  uptime = pos 0;
  sw_mac = [];
  sw_port = pos 0;
  last_uplink_name = [];
  ap_mac = [];
  wired_rate_mbps = pos 0;
}

abbrev wlan : UniFiWlanConf
wlan = record {
  id = lit "1";
  name = lit "Home";
  network_conf_id = [];
  security = lit "open";
  wpa_mode = [];
  wpa3_support = false;
  wpa3_transition = false;
  wlan_bands = lit "5g" ∷ [];
  enabled = true;
}

lookup-build_clients_by_ssid_example :
    or_no_clients (lookup (lit "Home") (build_clients_by_ssid (phone ∷ [])))
    ≡ filter (is_on (lit "Home")) (phone ∷ [])
lookup-build_clients_by_ssid_example = lookup-build_clients_by_ssid (lit "Home") (phone ∷ [])

abbrev home : UniFiBackend
home = record {
  get_devices = ok [];
  get_clients = ok (phone ∷ []);
  get_active_clients = ok [];
  get_offline_clients = λ days. ok [];
  get_all_clients = λ days. ok [];
  get_wlan_conf = ok (wlan ∷ []);
  get_network_conf = ok [];
}

abbrev one_controller : Service
one_controller = record {
  backends = record { name = lit "home"; backend = home } ∷ [];
  monitor = none;
  history_days = [];
}

abbrev listed : Ssid
listed = record {
  id = lit "home.home";
  name = lit "Home";
  uri = lit "/network/ssids/home.home";
  bands = band_5g ∷ [];
  vlan_id = pos 1;
  num_clients = 1;
}

one_controller_listed : (list_ssids ⦃u = ascii_only⦄ one_controller).result ≡ ok (listed ∷ [])
unfolding list_ssids for_each ◌==◌ lit map_ssid to_kebab to_lower composite_id lookup index_by
    insert
one_controller_listed = refl

one_controller-IsRoutable : IsRoutable one_controller
unfolding lit
one_controller-IsRoutable = record {
  distinct = (tt, tt);
  plain = ((λ e. cc, (ground arith, (ground arith, (ground arith, (ground arith, tt))))), tt);
}

listed_named : to_kebab ⦃u = ascii_only⦄ listed.name ≢ []
unfolding to_kebab to_lower lit
listed_named e = cc

one_controller_answers :
    (entry : BackendEntry UniFiBackend)
    → In entry one_controller.backends
    → (devices : List UniFiDevice) × (entry.backend.get_devices ≡ ok devices)
one_controller_answers entry (inl e) =
    subst
      (λ (x : BackendEntry UniFiBackend).
        (devices : List UniFiDevice) × (x.backend.get_devices ≡ ok devices))
      e ([], refl)
one_controller_answers entry (inr i) = absurd i

get_ssid-list_ssids_example :
    (o : Origin ⦃u = ascii_only⦄ one_controller listed) × IsFound ⦃u = ascii_only⦄ one_controller
      listed o
get_ssid-list_ssids_example =
    get_ssid-list_ssids ⦃u = ascii_only⦄ one_controller (listed ∷ []) listed one_controller_listed
      (inl refl) one_controller-IsRoutable listed_named one_controller_answers
