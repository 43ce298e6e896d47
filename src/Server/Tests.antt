-- ===== src/Server/Tests.antt =====
-- A configuration with a Synology device and a UniFi controller.
use homelab_api.Base.{
  Text, lit, ◌≡◌, Option, some, none, [], ◌∷◌, inl, inr, refl, false, true, arith,
}
use homelab_api.Base.Int.{pos}
use homelab_api.Base.Dict.{lookup}
use homelab_api.Base.Result.{err, plain}
use homelab_api.Config.{Backend, Config, validate}
use homelab_api.Config.Laws.{validate_iff}
use homelab_api.Adapters.Registry
use homelab_api.Network.Service.{UniFiBackend}
use homelab_api.Server.{UniFi, build_clients, build_health_checkers, network_service}
use homelab_api.Server.Settings.{unifi_wanted}
use homelab_api.Server.Laws.{configured, checker_for, lookup-build_health_checkers}
use homelab_api.Server.History.{network_service-history_days}

abbrev nas : Backend
nas = record {
  name = lit "nas";
  type = lit "synology";
  host = lit "nas:5001";
  username = lit "api";
  password = lit "secret";
  api_key = [];
  auth_version = [];
  insecure_tls = false;
  client_history_days = pos 0;
  timezone = lit "Mars/Base";
}

abbrev home : Backend
home = record {
  name = lit "home";
  type = lit "unifi";
  host = lit "unifi:8443";
  username = [];
  password = [];
  api_key = lit "key";
  auth_version = [];
  insecure_tls = true;
  client_history_days = pos 7;
  timezone = [];
}

abbrev both : Config
both = record {
  auth = record { enabled = false; scopes_enabled = false; issuer = []; audience = [] };
  dex = record { url = [] };
  backends = nas ∷ home ∷ [];
  updates = record { sources = []; check_interval = pos 0 };
}

both_valid : validate both ≡ none
unfolding lit
both_valid = (validate_iff both).1 (record {
  issuer = λ e. cc;
  dex_url = λ e. cc;
  some_backend = λ e. cc;
  names = ((λ e. ground arith, tt), (tt, tt));
  each = (
    record { named = λ e. cc; known = inl refl; hosted = λ e. cc; login = inr (λ e. cc, λ e. cc) },
    (
      record { named = λ e. cc; known = inr refl; hosted = λ e. cc; login = inl (refl, λ e. cc) },
      tt,
    ),
  );
})

abbrev no_zones : Text → Option Text
no_zones name = none

abbrev down : UniFi → UniFiBackend
down client = record {
  get_devices = err (record { message = plain (lit "down") ∷ []; not_found = false });
  get_clients = err (record { message = plain (lit "down") ∷ []; not_found = false });
  get_active_clients = err (record { message = plain (lit "down") ∷ []; not_found = false });
  get_offline_clients =
      λ days. err (record { message = plain (lit "down") ∷ []; not_found = false });
  get_all_clients = λ days. err (record { message = plain (lit "down") ∷ []; not_found = false });
  get_wlan_conf = err (record { message = plain (lit "down") ∷ []; not_found = false });
  get_network_conf = err (record { message = plain (lit "down") ∷ []; not_found = false });
}

lookup-build_health_checkers_example :
    lookup (lit "nas") (build_health_checkers (build_clients no_zones (lit "UTC") both))
    ≡ checker_for no_zones (lit "UTC") (configured (lit "nas") (nas ∷ home ∷ []))
lookup-build_health_checkers_example =
    lookup-build_health_checkers no_zones (lit "UTC") both (lit "nas") both_valid

network_service-history_days_example :
    let s = network_service down (build_clients no_zones (lit "UTC") both).unifi both none in
    (Registry.find s.backends (lit "home") ≡ some (down (unifi_wanted home)))
    × (lookup (lit "home") s.history_days ≡ some (pos 7))
network_service-history_days_example =
    network_service-history_days no_zones (lit "UTC") down none both home both_valid
      (inr (inl refl)) refl
