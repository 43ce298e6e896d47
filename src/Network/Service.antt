-- ===== src/Network/Service.antt =====
-- internal/network/service.go: the service's state, the lookup of a controller and composite IDs.
-- A backend is what its methods answer while a request is served; no operation calls one method of
-- a backend twice with the same arguments.
pub mod Laws
use homelab_api.Base.{
  Text, lit, Bool, not, if◌then◌else◌, Option, some, none, List, [], ◌∷◌, ◌++◌, map,
}
use homelab_api.Base.Int.{ℤ, pos, is_pos}
use homelab_api.Base.Dict.{Dict, lookup}
use homelab_api.Base.Result.{plain, quoted, Error, Result, ok, err, wrap, err_not_found}
use homelab_api.ApiErrors.{parse_composite_id}
use homelab_api.Adapters.Registry.{Registry, new_registry, find}
use homelab_api.Adapters.UniFi.{
  UniFiDevice, UniFiSta, UniFiClientV2, UniFiWlanConf, UniFiNetworkConf,
}

pub record UniFiBackend : Type 0 where
  pub get_devices : Result (List UniFiDevice)
  pub get_clients : Result (List UniFiSta)
  pub get_active_clients : Result (List UniFiClientV2)
  pub get_offline_clients : ℤ → Result (List UniFiClientV2)
  pub get_all_clients : ℤ → Result (List UniFiClientV2)
  pub get_wlan_conf : Result (List UniFiWlanConf)
  pub get_network_conf : Result (List UniFiNetworkConf)

-- `monitor` is none for a nil interface, or the answers of Available.
pub record Service : Type 0 where
  pub backends : Registry UniFiBackend
  pub monitor : Option (Text → Bool)
  pub history_days : Dict ℤ

-- The zero value of a map of numbers is 0.
abbrev pub or_zero : Option ℤ → ℤ
or_zero none = pos 0
or_zero (some d) = d

unfoldable pub days_of : Dict ℤ → Text → ℤ
days_of history_days controller =
    let d = or_zero (lookup controller history_days) in if not (is_pos d) then pos 30 else d

unfoldable pub new_service : Dict UniFiBackend → Dict ℤ → Option (Text → Bool) → Service
unfolding days_of
new_service backends history_days monitor = record {
  backends = new_registry backends;
  monitor = monitor;
  history_days = map (λ b. (b.0, days_of history_days b.0)) backends;
}

unfoldable pub find_backend : Service → Text → Result UniFiBackend
find_backend s controller = elim (find s.backends controller) [
  | some backend ↦ ok backend
  | none ↦ err (wrap (plain (lit "unknown controller ") ∷ quoted controller ∷ []) err_not_found)
]

unfoldable pub parse_id : Text → Result (Text × Text)
parse_id id = parse_composite_id id (lit "ID") (lit "controller.suffix")

-- fmt.Sprintf("%s.%s", controller, suffix)
unfoldable pub composite_id : Text → Text → Text
composite_id controller suffix = controller ++ b'.' ∷ suffix

-- `fmt.Errorf("what: id: %w", apierrors.ErrNotFound)`
unfoldable pub missing : Text → Text → Error
missing what id = wrap (plain what ∷ plain id ∷ []) err_not_found
