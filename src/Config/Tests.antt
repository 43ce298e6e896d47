-- ===== src/Config/Tests.antt =====
-- A configuration with one Synology device.
use homelab_api.Base.{lit, ◌≡◌, ◌↔◌, [], ◌∷◌, none, false}
use homelab_api.Base.Int.{pos}
use homelab_api.Config.{Config, validate}
use homelab_api.Config.Laws.{IsValidConfig, validate_iff}

abbrev one_nas : Config
one_nas = record {
  auth = record { enabled = false; scopes_enabled = false; issuer = []; audience = [] };
  dex = record { url = [] };
  backends =
      record {
        name = lit "nas";
        type = lit "synology";
        host = lit "nas:5001";
        username = lit "api";
        password = lit "secret";
        api_key = [];
        auth_version = [];
        insecure_tls = false;
        client_history_days = pos 0;
        timezone = [];
      }
      ∷ [];
  updates = record { sources = []; check_interval = pos 0 };
}

validate_iff_example : (validate one_nas ≡ none) ↔ IsValidConfig one_nas
validate_iff_example = validate_iff one_nas
