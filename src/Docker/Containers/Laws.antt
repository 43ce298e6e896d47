-- ===== src/Docker/Containers/Laws.antt =====
-- The containers that are listed, and that a command reaches the container of its ID.
use homelab_api.Base.{Text, false, Option, List, [], ◌≡◌, ◌≢◌, refl, sym, ap, ◌∙◌, In, In-map_inv}
use homelab_api.Base.Int.{pos}
use homelab_api.Base.Dict.{lookup, index_by}
use homelab_api.Base.Result.{ok}
use homelab_api.Base.Loop.{for_each_inv, Appended-next, Appended-guard}
use homelab_api.Adapters.Registry.{BackendEntry}
use homelab_api.Adapters.Listing.{Appended-or_fail}
use homelab_api.Adapters.Synology.{DsmContainer, DsmContainerResource}
use homelab_api.Docker.Service.{
  DockerBackend, Service, docker_id, parse_docker_id, find_backend, is_skipped,
}
use homelab_api.Docker.Service.Laws.{
  IsRoutable, find_backend-In, parse_docker_id-docker_id, not_skipped,
}
use homelab_api.Docker.Containers.{
  Container, map_container, or_no_resource, read_containers, containers_round, list_containers,
  start_container, stop_container, restart_container,
}

module _ (s : Service) where
  -- The backend and the container that an item of the list stands for.
  pub record Source (device : Option Text) (w : Container) : Type 0 where
    pub entry : BackendEntry DockerBackend
    pub listed : In entry s.backends
    pub read : is_skipped s device entry ≡ false
    pub raw : List DsmContainer
    pub got : entry.backend.list_containers ≡ ok raw
    pub item : DsmContainer
    pub here : In item raw
    pub id : docker_id entry.name item.name ≡ w.id
    pub name : item.name ≡ w.name
    pub owner : entry.name ≡ w.device

  list_containers-Source :
      (device : Option Text) (items : List Container) (w : Container)
      → (list_containers s device).result ≡ ok items
      → In w items
      → Source device w
  unfolding list_containers containers_round read_containers map_container
  list_containers-Source device items w h i =
      let (entry, j, added) = for_each_inv (containers_round s device) s.backends items w h i in
      let (read, a) = Appended-guard w (is_skipped s device entry) _ added in
      let (raw, got, b) = Appended-or_fail w device _ _ _ entry.backend.list_containers _ a in
      let (resources, _, c) =
        Appended-or_fail w device _ _ _ entry.backend.get_container_resources _ b in
      let resource_map = index_by (λ (r : DsmContainerResource). r.name) resources in
      let (item, here, built) =
        In-map_inv
          (λ (x : DsmContainer).
            map_container entry.name x (or_no_resource (lookup x.name resource_map)) (pos 0))
          w raw (Appended-next w c) in
      record {
        entry = entry;
        listed = j;
        read = read;
        raw = raw;
        got = got;
        item = item;
        here = here;
        id = ap (λ (x : Container). x.id) built;
        name = ap (λ (x : Container). x.name) built;
        owner = ap (λ (x : Container). x.device) built;
      }

  module _ (device : Option Text) (w : Container) (ready : IsRoutable s) (named : w.name ≢ [])
      (o : Source device w) where
    listed_id : parse_docker_id w.id ≡ ok (o.entry.name, o.item.name)
    listed_id =
        ap parse_docker_id (sym o.id)
        ∙ parse_docker_id-docker_id s ready o.entry o.listed o.item.name (rw o.name named)

    listed_backend : find_backend s o.entry.name ≡ ok o.entry.backend
    listed_backend =
        find_backend-In s ready o.entry o.listed (not_skipped s device o.entry o.read).1

    start_container-Source : start_container s w.id ≡ o.entry.backend.start_container w.name
    unfolding start_container
    start_container-Source = rw (listed_id, listed_backend, o.name) refl

    stop_container-Source : stop_container s w.id ≡ o.entry.backend.stop_container w.name
    unfolding stop_container
    stop_container-Source = rw (listed_id, listed_backend, o.name) refl

    restart_container-Source : restart_container s w.id ≡ o.entry.backend.restart_container w.name
    unfolding restart_container
    restart_container-Source = rw (listed_id, listed_backend, o.name) refl

  -- The start, stop and restart of a listed container's ID are, each, the same command to the
  -- backend that the container was listed from, for its name there; the devices' names have to
  -- differ, hold no dot and not be empty, and the container to have a name.
  pub commands-list_containers :
      (device : Option Text) (items : List Container) (w : Container)
      → (list_containers s device).result ≡ ok items
      → In w items
      → IsRoutable s
      → w.name ≢ []
      → (o : Source device w) × (start_container s w.id ≡ o.entry.backend.start_container w.name)
        × (stop_container s w.id ≡ o.entry.backend.stop_container w.name)
        × (restart_container s w.id ≡ o.entry.backend.restart_container w.name)
  commands-list_containers device items w h i ready named =
      let o = list_containers-Source device items w h i in
      (
        o,
        start_container-Source device w ready named o,
        stop_container-Source device w ready named o,
        restart_container-Source device w ready named o,
      )
