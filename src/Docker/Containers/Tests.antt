-- ===== src/Docker/Containers/Tests.antt =====
-- The container of the sample device.
use homelab_api.Base.{lit, ◌==◌, some, [], ◌∷◌, ◌≡◌, refl, inl}
use homelab_api.Base.Int.{pos}
use homelab_api.Base.Dict.{lookup, index_by}
use homelab_api.Base.Result.{ok}
use homelab_api.Base.Loop.{for_each}
use homelab_api.Docker.Service.{docker_id}
use homelab_api.Docker.Sample.{one_device, one_device-IsRoutable}
use homelab_api.Docker.Containers.{
  Container, running, list_containers, map_container, start_container, stop_container,
  restart_container,
}
use homelab_api.Docker.Containers.Laws.{Source, commands-list_containers}

abbrev listed : Container
listed = record {
  id = lit "nas.web";
  device = lit "nas";
  name = lit "web";
  image = lit "nginx:1.27";
  status = running;
  restart_count = pos 0;
  resources = record {
    cpu_percent = record { thousandths = pos 0 };
    memory_bytes = pos 0;
    memory_percent = record { thousandths = pos 0 };
  };
}

one_device_listed : (list_containers one_device (some (lit "nas"))).result ≡ ok (listed ∷ [])
unfolding list_containers for_each ◌==◌ lit docker_id map_container lookup index_by
one_device_listed = refl

commands-list_containers_example :
    (o : Source one_device (some (lit "nas")) listed) × (start_container one_device listed.id
      ≡ o.entry.backend.start_container listed.name)
    × (stop_container one_device listed.id ≡ o.entry.backend.stop_container listed.name)
    × (restart_container one_device listed.id ≡ o.entry.backend.restart_container listed.name)
unfolding lit
commands-list_containers_example =
    commands-list_containers one_device (some (lit "nas")) (listed ∷ []) listed one_device_listed
      (inl refl) one_device-IsRoutable (λ e. cc)
