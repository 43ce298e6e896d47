-- ===== src/Docker/Service.antt =====
-- internal/docker/service.go: the service's state, the lookup of a device and composite IDs.
-- A backend is what its methods answer while a request is served.
pub mod Laws
use homelab_api.Base.{
  Text, lit, Bool, true, not, if◌then◌else◌, Option, some, none, List, [], ◌∷◌, ◌++◌,
}
use homelab_api.Base.Dict.{Dict}
use homelab_api.Base.Result.{Part, plain, quoted, Result, ok, err, wrap, err_not_found}
use homelab_api.ApiErrors.{parse_composite_id}
use homelab_api.Adapters.Registry.{Registry, BackendEntry, new_registry, find}
use homelab_api.Adapters.Listing.{is_unavailable, is_filtered_out}
use homelab_api.Adapters.Synology.{
  DsmContainer, DsmContainerDetailResponse, DsmContainerResource, DsmDockerNetworkItem,
  DsmDockerImageItem,
}

pub record DockerBackend : Type 0 where
  pub supports_containers : Bool
  pub list_containers : Result (List DsmContainer)
  pub get_container : Text → Result DsmContainerDetailResponse
  pub get_container_resources : Result (List DsmContainerResource)
  pub start_container : Text → Result {0} Unit
  pub stop_container : Text → Result {0} Unit
  pub restart_container : Text → Result {0} Unit
  pub list_docker_networks : Result (List DsmDockerNetworkItem)
  pub list_docker_images : Result (List DsmDockerImageItem)

-- `monitor` is none for a nil interface, or the answers of Available.
pub record Service : Type 0 where
  pub backends : Registry DockerBackend
  pub monitor : Option (Text → Bool)

pub new_service : Dict DockerBackend → Option (Text → Bool) → Service
new_service backends monitor = record { backends = new_registry backends; monitor = monitor }

-- `if !backend.SupportsContainers() { return nil, … }`
supporting : Text → DockerBackend → Result DockerBackend
supporting device backend =
    if not backend.supports_containers
    then err (
        wrap (plain (lit "device ") ∷ quoted device ∷ plain (lit " does not support docker") ∷ [])
          err_not_found)
    else ok backend

pub find_backend : Service → Text → Result DockerBackend
unfolding supporting
find_backend s device = elim (find s.backends device) [
  | none ↦ err (wrap (plain (lit "unknown device ") ∷ quoted device ∷ []) err_not_found)
  | some backend ↦ supporting device backend
]

unfoldable pub parse_docker_id : Text → Result (Text × Text)
parse_docker_id id = parse_composite_id id (lit "ID") (lit "device.name")

-- fmt.Sprintf("%s.%s", device, suffix)
unfoldable pub docker_id : Text → Text → Text
docker_id device suffix = device ++ b'.' ∷ suffix

-- The three tests in front of a round of every list operation.
abbrev pub is_skipped : Service → Option Text → BackendEntry DockerBackend → Bool
is_skipped s device entry =
    if is_filtered_out device entry.name
    then true
    else if not entry.backend.supports_containers
    then true
    else is_unavailable s.monitor entry.name

-- "<what> from <name>"
abbrev pub from_backend : Text → Text → List Part
from_backend what name = plain what ∷ plain (lit " from ") ∷ plain name ∷ []
