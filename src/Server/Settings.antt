-- ===== src/Server/Settings.antt =====
-- cmd/server/backends.go: the settings of a client, field by field.
use homelab_api.Base.{false, ap, Text, lit, ◌==◌, if◌then◌else◌, Option, none, [], ◌∷◌, ◌≡◌, refl}
use homelab_api.Config.{Backend}
use homelab_api.Adapters.Dsm.{new_synology_client}
use homelab_api.Adapters.Controller.{UniFiClient, new_unifi_client, new_unifi_client_with_api_key}
use homelab_api.Server.{Synology, UniFi, location_of, synology_of, unifi_of}

-- With an API key the credentials stay empty.
abbrev pub unifi_wanted : Backend → UniFi
unifi_wanted b = record {
  client = record {
    host = b.host;
    user = if b.api_key == [] then b.username else [];
    pass = if b.api_key == [] then b.password else [];
    api_key = b.api_key;
    logged_in = false;
  };
  insecure_tls = b.insecure_tls;
}

client-wanted :
    (host user pass key : Text)
    → (if key == []
        then new_unifi_client host user pass
        else new_unifi_client_with_api_key host key)
      ≡ record {
        host = host;
        user = if key == [] then user else [];
        pass = if key == [] then pass else [];
        api_key = key;
        logged_in = false;
      }
unfolding ◌==◌ new_unifi_client new_unifi_client_with_api_key
client-wanted host user pass [] = refl
client-wanted host user pass (c ∷ key) = refl

module _ {Location : Type 0} (load_location : Text → Option Location) (local : Location) where
  -- The client that the configuration of a backend asks for, field by field.
  abbrev pub synology_wanted : Backend → Synology Location
  synology_wanted b = record {
    client = record {
      name = b.name;
      host = b.host;
      user = b.username;
      pass = b.password;
      auth_version = if b.auth_version == [] then lit "6" else b.auth_version;
      auth_info = none;
      sid = [];
      supported_apis = none;
      discovery_failed = false;
    };
    insecure_tls = b.insecure_tls;
    location = location_of load_location local b.timezone;
  }

  pub synology_of-wanted : (b : Backend) → synology_of load_location local b ≡ synology_wanted b
  unfolding synology_of new_synology_client
  synology_of-wanted b = refl

  pub unifi_of-wanted : (b : Backend) → unifi_of load_location local b ≡ unifi_wanted b
  unfolding unifi_of
  unifi_of-wanted b =
      ap (λ (c : UniFiClient). record { client = c; insecure_tls = b.insecure_tls })
        (client-wanted b.host b.username b.password b.api_key)
