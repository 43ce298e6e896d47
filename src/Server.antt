-- ===== src/Server.antt =====
-- cmd/server/backends.go, and the part of cmd/server/main.go that builds the network service: how
-- the configuration becomes clients, health checkers and services.
-- time.LoadLocation and the server's own time zone are parameters.
pub mod Settings
pub mod Laws
pub mod History
mod Tests
use homelab_api.Base.{Text, lit, ◌==◌, Bool, if◌then◌else◌, Option, some, none, List, [], ◌∷◌, map}
use homelab_api.Base.Int.{ℤ}
use homelab_api.Base.Dict.{Dict, insert}
use homelab_api.Config.{Backend, Config, is_synology, is_unifi, by_type}
use homelab_api.Adapters.Dsm.{SynologyClient, new_synology_client}
use homelab_api.Adapters.Controller.{UniFiClient, new_unifi_client, new_unifi_client_with_api_key}
use homelab_api.Network.Service.{Service, UniFiBackend, new_service}

-- A SynologyClient with the settings that its requests do not depend on.
pub record Synology (Location : Type 0) : Type 0 where
  pub client : SynologyClient
  pub insecure_tls : Bool
  pub location : Location

pub record UniFi : Type 0 where
  pub client : UniFiClient
  pub insecure_tls : Bool

-- The two maps that buildClients returns.
pub record Clients (Location : Type 0) : Type 0 where
  pub synology : Dict (Synology Location)
  pub unifi : Dict UniFi

pub data HealthChecker (Location : Type 0) : Type 0 where
  dsm : Synology Location → HealthChecker Location
  controller : UniFi → HealthChecker Location

module _ {Location : Type 0} (load_location : Text → Option Location) (local : Location) where
  unfoldable pub location_of : Text → Location
  location_of timezone =
      if timezone == [] then local else elim (load_location timezone) [ none ↦ local | some l ↦ l ]

  unfoldable pub synology_of : Backend → Synology Location
  synology_of b = record {
    client = new_synology_client b.name b.host b.username b.password b.auth_version;
    insecure_tls = b.insecure_tls;
    location = location_of b.timezone;
  }

  unfoldable pub unifi_of : Backend → UniFi
  unifi_of b = record {
    client =
        if b.api_key == []
        then new_unifi_client b.host b.username b.password
        else new_unifi_client_with_api_key b.host b.api_key;
    insecure_tls = b.insecure_tls;
  }

  unfoldable pub add_client : Backend → Clients Location → Clients Location
  add_client b cs =
      if is_synology b.type
      then record { synology = insert b.name (synology_of b) cs.synology; unifi = cs.unifi }
      else if is_unifi b.type
      then record { synology = cs.synology; unifi = insert b.name (unifi_of b) cs.unifi }
      else cs

  unfoldable pub clients_from : List Backend → Clients Location → Clients Location
  clients_from [] cs = cs
  clients_from (b ∷ bs) cs = clients_from bs (add_client b cs)

  unfoldable pub build_clients : Config → Clients Location
  build_clients cfg = clients_from cfg.backends (record { synology = []; unifi = [] })

-- `for name, c := range clients { checkers[name] = c }`
unfoldable pub add_checkers : {V H : Type 0} → (V → H) → Dict V → Dict H → Dict H
add_checkers wrap [] checkers = checkers
add_checkers wrap ((name, c) ∷ clients) checkers =
    add_checkers wrap clients (insert name (wrap c) checkers)

unfoldable pub build_health_checkers :
    {Location : Type 0} → Clients Location → Dict (HealthChecker Location)
build_health_checkers cs = add_checkers controller cs.unifi (add_checkers dsm cs.synology [])

-- historyDaysMap
unfoldable pub history_days_from : List Backend → Dict ℤ → Dict ℤ
history_days_from [] days = days
history_days_from (b ∷ bs) days = history_days_from bs (insert b.name b.client_history_days days)

unfoldable pub history_days_map : Config → Dict ℤ
history_days_map cfg = history_days_from (by_type cfg (lit "unifi")) []

-- networkSvc, with `backend` for what a client answers while a request is served.
unfoldable pub network_service :
    (UniFi → UniFiBackend) → Dict UniFi → Config → Option (Text → Bool) → Service
network_service backend unifi_clients cfg monitor =
    new_service (map (λ (p : Text × UniFi). (p.0, backend p.1)) unifi_clients)
      (history_days_map cfg) monitor
