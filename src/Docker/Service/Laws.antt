-- ===== src/Docker/Service/Laws.antt =====
-- The lookup of a device, and the backends that a list operation reads.
use homelab_api.Base.{
  Text, lit, true, false, Option, [], ◌≡◌, ◌≢◌, refl, arith, All, Distinct, In, All-In,
}
use homelab_api.Base.Strings.Cut.{Lacks}
use homelab_api.Base.Result.{ok}
use homelab_api.ApiErrors.Laws.{parse_composite_id_iff}
use homelab_api.Adapters.Registry.{BackendEntry}
use homelab_api.Adapters.Registry.Laws.{names, find-In}
use homelab_api.Adapters.Listing.{is_filtered_out, is_unavailable}
use homelab_api.Docker.Service.{
  DockerBackend, Service, supporting, find_backend, parse_docker_id, docker_id, is_skipped,
}

-- The devices' names differ, and each can stand in a composite ID.
pub record IsRoutable (s : Service) : Type 0 where
  pub distinct : Distinct (names s.backends)
  pub plain : All (λ (e : BackendEntry DockerBackend). (e.name ≢ []) × Lacks b'.' e.name) s.backends

module _ (s : Service) (ready : IsRoutable s) (e : BackendEntry DockerBackend)
    (i : In e s.backends) where
  pub find_backend-In : e.backend.supports_containers ≡ true → find_backend s e.name ≡ ok e.backend
  unfolding find_backend supporting
  find_backend-In able = rw (find-In s.backends e ready.distinct i, able, find_backend) refl

  pub parse_docker_id-docker_id :
      (suffix : Text)
      → suffix ≢ []
      → parse_docker_id (docker_id e.name suffix) ≡ ok (e.name, suffix)
  unfolding parse_docker_id docker_id
  parse_docker_id-docker_id suffix given =
      let (named, lacks) =
        All-In (λ (x : BackendEntry DockerBackend). (x.name ≢ []) × Lacks b'.' x.name) s.backends e
          ready.plain i in
      (parse_composite_id_iff (lit "ID") (lit "device.name") _ e.name suffix).1
        (record { spelled = refl; no_dot = lacks; device_given = named; suffix_given = given })

-- A backend that is not skipped: it passes the filter, has the Docker API and is available.
pub not_skipped :
    (s : Service) (device : Option Text) (e : BackendEntry DockerBackend)
    → is_skipped s device e ≡ false
    → (is_filtered_out device e.name ≡ false)
      × (e.backend.supports_containers ≡ true)
      × (is_unavailable s.monitor e.name ≡ false)
not_skipped s device e h = (ground arith, ground arith, ground arith)
