-- ===== src/Docker/Containers.antt =====
-- internal/docker/containers_service.go: the containers, and their start, stop and restart.
-- time.Parse with RFC3339Nano is the parameter `parse_time`; a time is its number of nanoseconds
-- since Go's zero time, none for a text that does not parse.
pub mod Laws
mod Tests
use homelab_api.Base.{
  Text, ◌==◌, lit, Bool, not, if◌then◌else◌, Option, some, none, List, [], ◌∷◌, map, find,
}
use homelab_api.Base.Int.{ℤ, pos, int_eq}
use homelab_api.Base.Float.{Float64}
use homelab_api.Base.Dict.{Dict, lookup, index_by}
use homelab_api.Base.Result.{plain, Result, ok, ◌>>=◌, wrapping}
use homelab_api.Base.Loop.{Round, next, skip, Logged, for_each}
use homelab_api.Adapters.Registry.{BackendEntry}
use homelab_api.Adapters.Listing.{or_fail}
use homelab_api.Adapters.Synology.{
  DsmContainer, DsmContainerState, DsmContainerResource, DsmContainerDetailResponse, DsmEnvVariable,
  DsmNetwork, DsmProfilePortBinding, DsmVolumeBinding, host_path,
}
use homelab_api.Docker.Service.{
  DockerBackend, Service, find_backend, parse_docker_id, docker_id, is_skipped, from_backend,
}

pub data ContainerStatus : Type 0 where
  running stopped restarting paused dead : ContainerStatus

pub data RestartPolicy : Type 0 where
  always no unless_stopped on_failure : RestartPolicy

pub data VolumeMountMode : Type 0 where
  ro rw_mode : VolumeMountMode

pub record ContainerResources : Type 0 where
  pub cpu_percent : Float64
  pub memory_bytes : ℤ
  pub memory_percent : Float64

pub record Container : Type 0 where
  pub id : Text
  pub device : Text
  pub name : Text
  pub image : Text
  pub status : ContainerStatus
  pub restart_count : ℤ
  pub resources : ContainerResources

pub record VolumeMount : Type 0 where
  pub source : Text
  pub destination : Text
  pub mode : VolumeMountMode

-- EnvVariable, ContainerNetwork and PortBinding have the fields of the DSM's records.
pub record ContainerDetail : Type 0 where
  pub id : Text
  pub device : Text
  pub name : Text
  pub image : Text
  pub status : ContainerStatus
  pub restart_count : ℤ
  pub resources : ContainerResources
  pub started_at : ℤ
  pub finished_at : Option ℤ
  pub exit_code : ℤ
  pub oom_killed : Bool
  pub restart_policy : RestartPolicy
  pub privileged : Bool
  pub memory_limit : ℤ
  pub port_bindings : List DsmProfilePortBinding
  pub networks : List DsmNetwork
  pub volume_bindings : List VolumeMount
  pub env_variables : List DsmEnvVariable
  pub entrypoint : List Text
  pub cmd : List Text
  pub labels : Dict Text

map_restart_policy : Text → RestartPolicy
map_restart_policy name =
    if name == lit "always"
    then always
    else if name == lit "no"
    then no
    else if name == lit "unless-stopped"
    then unless_stopped
    else if name == lit "on-failure"
    then on_failure
    else no

map_status : DsmContainerState → ContainerStatus
map_status state =
    if state.dead
    then dead
    else if state.restarting
    then restarting
    else if state.paused
    then paused
    else if state.running
    then running
    else stopped

map_resources : DsmContainerResource → ContainerResources
map_resources res = record {
  cpu_percent = res.cpu;
  memory_bytes = res.memory;
  memory_percent = res.memory_percent;
}

-- The zero value of DSMContainerResource.
abbrev no_resource : DsmContainerResource
no_resource = record {
  name = [];
  cpu = record { thousandths = pos 0 };
  memory = pos 0;
  memory_percent = record { thousandths = pos 0 };
}

abbrev or_no_resource : Option DsmContainerResource → DsmContainerResource
or_no_resource none = no_resource
or_no_resource (some res) = res

map_container : Text → DsmContainer → DsmContainerResource → ℤ → Container
unfolding map_status map_resources
map_container device c res restart_count = record {
  id = docker_id device c.name;
  device = device;
  name = c.name;
  image = c.image;
  status = map_status c.state;
  restart_count = restart_count;
  resources = map_resources res;
}

map_volume : DsmVolumeBinding → VolumeMount
map_volume v = record {
  source = host_path v;
  destination = v.mount_path;
  mode = if v.type == lit "ro" then ro else rw_mode;
}

-- The zero time, where `t, _ := time.Parse(…)` fails.
abbrev or_zero_time : Option ℤ → ℤ
or_zero_time none = pos 0
or_zero_time (some t) = t

-- `err == nil && !t.IsZero()`
abbrev unless_zero_time : Option ℤ → Option ℤ
unless_zero_time none = none
unless_zero_time (some t) = if not (int_eq t (pos 0)) then some t else none

module _ (parse_time : Text → Option ℤ) where
  map_container_detail : Text → DsmContainerDetailResponse → DsmContainerResource → ContainerDetail
  unfolding map_status map_resources map_volume map_restart_policy
  map_container_detail device d res = record {
    id = docker_id device d.profile.name;
    device = device;
    name = d.profile.name;
    image = d.profile.image;
    status = map_status d.details.state;
    restart_count = d.details.restart_count;
    resources = map_resources res;
    started_at = or_zero_time (parse_time d.details.state.started_at);
    finished_at =
        if not d.details.state.running
        then unless_zero_time (parse_time d.details.state.finished_at)
        else none;
    exit_code = d.details.state.exit_code;
    oom_killed = d.details.state.oom_killed;
    restart_policy = map_restart_policy d.details.restart_policy_name;
    privileged = d.profile.privileged;
    memory_limit = d.profile.memory_limit;
    port_bindings = d.profile.port_bindings;
    networks = d.profile.networks;
    volume_bindings = map map_volume d.profile.volume_bindings;
    env_variables = d.profile.env_variables;
    entrypoint = d.details.entrypoint;
    cmd = d.details.cmd;
    labels = d.details.labels;
  }

  pub get_container : Service → Text → Result ContainerDetail
  unfolding map_container_detail
  get_container s container_id = do
    (device, name) ← parse_docker_id container_id
    backend ← find_backend s device
    detail ← wrapping (plain (lit "get container") ∷ []) (backend.get_container name)
    resources ←
        wrapping (plain (lit "get container resources") ∷ []) backend.get_container_resources
    let res = or_no_resource (find (λ (r : DsmContainerResource). r.name == name) resources)
    ok (map_container_detail device detail res)

module _ (s : Service) where
  -- The resources of a container are looked up by its name; the last entry of a name counts.
  read_containers : Text → List DsmContainer → List DsmContainerResource → Round Container
  read_containers name containers resources =
      let resource_map = index_by (λ (r : DsmContainerResource). r.name) resources in
      next
        (map
          (λ (c : DsmContainer).
            map_container name c (or_no_resource (lookup c.name resource_map)) (pos 0))
          containers)
        []

  containers_round : Option Text → BackendEntry DockerBackend → Round Container
  unfolding read_containers
  containers_round device entry =
      if is_skipped s device entry
      then skip
      else or_fail device (from_backend (lit "list containers") entry.name)
          (lit "skipping backend on list containers error") entry.name entry.backend.list_containers
          (λ containers.
            or_fail device (from_backend (lit "get container resources") entry.name)
              (lit "skipping backend on get container resources error") entry.name
              entry.backend.get_container_resources
              (λ resources. read_containers entry.name containers resources))

  pub list_containers : Option Text → Logged (List Container)
  unfolding containers_round
  list_containers device = for_each (containers_round device) s.backends

  pub start_container : Text → Result {0} Unit
  start_container container_id = do
    (device, name) ← parse_docker_id container_id
    backend ← find_backend s device
    backend.start_container name

  pub stop_container : Text → Result {0} Unit
  stop_container container_id = do
    (device, name) ← parse_docker_id container_id
    backend ← find_backend s device
    backend.stop_container name

  pub restart_container : Text → Result {0} Unit
  restart_container container_id = do
    (device, name) ← parse_docker_id container_id
    backend ← find_backend s device
    backend.restart_container name
