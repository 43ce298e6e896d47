-- ===== src/Docker/Networks.antt =====
-- internal/docker/networks_service.go: the Docker networks.
-- A nil list of containers counts and shows as the empty one.
pub mod Laws
mod Tests
use homelab_api.Base.{
  Text, ◌==◌, lit, Bool, not, if◌then◌else◌, Option, some, none, List, [], ◌∷◌, map, find, length,
  ℕ,
}
use homelab_api.Base.Result.{plain, quoted, Result, ok, err, ◌>>=◌, wrapping, wrap, err_not_found}
use homelab_api.Base.Loop.{Round, next, skip, Logged, for_each}
use homelab_api.Adapters.Registry.{BackendEntry}
use homelab_api.Adapters.Listing.{or_fail}
use homelab_api.Adapters.Synology.{DsmDockerNetworkItem}
use homelab_api.Docker.Service.{
  DockerBackend, Service, find_backend, parse_docker_id, docker_id, is_skipped, from_backend,
}

pub record DockerNetwork : Type 0 where
  pub id : Text
  pub name : Text
  pub device : Text
  pub connected_containers : ℕ

pub record DockerNetworkDetail : Type 0 where
  pub id : Text
  pub name : Text
  pub device : Text
  pub connected_containers : ℕ
  pub driver : Text
  pub containers : List Text
  pub subnet : Option Text
  pub gateway : Option Text
  pub ip_range : Option Text

map_docker_network : Text → DsmDockerNetworkItem → DockerNetwork
map_docker_network device n = record {
  id = docker_id device n.name;
  name = n.name;
  device = device;
  connected_containers = length n.containers;
}

-- `if t != "" { p = &t }`
abbrev unless_empty : Text → Option Text
unless_empty t = if not (t == []) then some t else none

map_docker_network_detail : Text → DsmDockerNetworkItem → DockerNetworkDetail
map_docker_network_detail device n = record {
  id = docker_id device n.name;
  name = n.name;
  device = device;
  connected_containers = length n.containers;
  driver = n.driver;
  containers = n.containers;
  subnet = unless_empty n.subnet;
  gateway = unless_empty n.gateway;
  ip_range = unless_empty n.ip_range;
}

is_network : Text → DsmDockerNetworkItem → Bool
is_network name n = n.name == name

module _ (s : Service) where
  networks_round : Option Text → BackendEntry DockerBackend → Round DockerNetwork
  networks_round device entry =
      if is_skipped s device entry
      then skip
      else or_fail device (from_backend (lit "list docker networks") entry.name)
          (lit "skipping backend on list docker networks error") entry.name
          entry.backend.list_docker_networks
          (λ raw. next (map (map_docker_network entry.name) raw) [])

  pub list_networks : Option Text → Logged (List DockerNetwork)
  unfolding networks_round
  list_networks device = for_each (networks_round device) s.backends

  pub get_network : Text → Result DockerNetworkDetail
  get_network network_id = do
    (device, name) ← parse_docker_id network_id
    backend ← find_backend s device
    raw ← wrapping (plain (lit "list docker networks") ∷ []) backend.list_docker_networks
    elim (find (is_network name) raw) [
      | some n ↦ ok (map_docker_network_detail device n)
      | none ↦ err (
          wrap (plain (lit "network ") ∷ quoted network_id ∷ plain (lit " not found") ∷ [])
            err_not_found)
    ]
