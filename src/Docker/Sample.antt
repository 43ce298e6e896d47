-- ===== src/Docker/Sample.antt =====
-- Test data: a device with a container, a Docker network and an image.
use homelab_api.Base.{lit, true, false, none, [], ◌∷◌, arith}
use homelab_api.Base.Int.{pos}
use homelab_api.Base.Result.{ok}
use homelab_api.Adapters.Synology.{
  DsmContainer, DsmContainerState, DsmDockerNetworkItem, DsmDockerImageItem,
}
use homelab_api.Docker.Service.{DockerBackend, Service}
use homelab_api.Docker.Service.Laws.{IsRoutable}

abbrev pub running_state : DsmContainerState
running_state = record {
  dead = false;
  paused = false;
  restarting = false;
  running = true;
  status = [];
  started_at = [];
  finished_at = [];
  exit_code = pos 0;
  oom_killed = false;
}

abbrev pub bridge : DsmDockerNetworkItem
bridge = record {
  id = lit "1";
  name = lit "bridge";
  driver = lit "bridge";
  gateway = [];
  subnet = [];
  ip_range = [];
  containers = lit "web" ∷ [];
}

abbrev pub nginx : DsmDockerImageItem
nginx = record {
  id = lit "sha256:0123456789abcdef";
  repository = lit "nginx";
  tags = lit "1.27" ∷ [];
  size = pos 100;
  virtual_size = pos 100;
  created = pos 0;
  description = [];
}

abbrev pub web : DsmContainer
web = record {
  id = lit "7";
  name = lit "web";
  image = lit "nginx:1.27";
  status = lit "running";
  state = running_state;
}

abbrev pub nas : DockerBackend
nas = record {
  supports_containers = true;
  list_containers = ok (web ∷ []);
  get_container = λ name. ok (record {
    details = record {
      restart_count = pos 0;
      state = running_state;
      cmd = [];
      entrypoint = [];
      labels = [];
      restart_policy_name = [];
    };
    profile = record {
      name = name;
      image = [];
      env_variables = [];
      networks = [];
      port_bindings = [];
      volume_bindings = [];
      privileged = false;
      memory_limit = pos 0;
    };
  });
  get_container_resources = ok [];
  start_container = λ name. ok tt;
  stop_container = λ name. ok tt;
  restart_container = λ name. ok tt;
  list_docker_networks = ok (bridge ∷ []);
  list_docker_images = ok (nginx ∷ []);
}

abbrev pub one_device : Service
one_device = record { backends = record { name = lit "nas"; backend = nas } ∷ []; monitor = none }

pub one_device-IsRoutable : IsRoutable one_device
unfolding lit
one_device-IsRoutable = record {
  distinct = (tt, tt);
  plain = ((λ e. cc, (ground arith, (ground arith, (ground arith, tt)))), tt);
}
