-- ===== src/Docker/Networks/Laws.antt =====
-- The Docker networks that are listed: from which devices, and that each can be looked up.
use homelab_api.Base.{
  Text, lit, ==_refl, ==_sound, false, Option, some, none, List, [], ◌∷◌, ◌≡◌, ◌≢◌, sym, ap, ◌∙◌,
  In, In-map_inv, find, find_of_In,
}
use homelab_api.Base.Result.{ok, err, wrap, plain, quoted, err_not_found}
use homelab_api.Base.Loop.{for_each_inv, Appended-next, Appended-guard}
use homelab_api.Adapters.Registry.{BackendEntry}
use homelab_api.Adapters.Listing.{Appended-or_fail}
use homelab_api.Adapters.Synology.{DsmDockerNetworkItem}
use homelab_api.Docker.Service.{
  DockerBackend, Service, docker_id, parse_docker_id, find_backend, is_skipped,
}
use homelab_api.Docker.Service.Laws.{
  IsRoutable, find_backend-In, parse_docker_id-docker_id, not_skipped,
}
use homelab_api.Docker.Networks.{
  DockerNetwork, DockerNetworkDetail, map_docker_network, map_docker_network_detail, is_network,
  networks_round, list_networks, get_network,
}

module _ (s : Service) where
  -- Where an item of the list comes from.
  record Origin (device : Option Text) (w : DockerNetwork) : Type 0 where
    entry : BackendEntry DockerBackend
    listed : In entry s.backends
    read : is_skipped s device entry ≡ false
    raw : List DsmDockerNetworkItem
    got : entry.backend.list_docker_networks ≡ ok raw
    item : DsmDockerNetworkItem
    here : In item raw
    built : map_docker_network entry.name item ≡ w

  list_networks-Origin :
      (device : Option Text) (items : List DockerNetwork) (w : DockerNetwork)
      → (list_networks s device).result ≡ ok items
      → In w items
      → Origin device w
  unfolding list_networks networks_round
  list_networks-Origin device items w h i =
      let (entry, j, added) = for_each_inv (networks_round s device) s.backends items w h i in
      let (read, a) = Appended-guard w (is_skipped s device entry) _ added in
      let (raw, got, b) = Appended-or_fail w device _ _ _ entry.backend.list_docker_networks _ a in
      let (item, here, built) =
        In-map_inv (map_docker_network entry.name) w raw (Appended-next w b) in
      record {
        entry = entry;
        listed = j;
        read = read;
        raw = raw;
        got = got;
        item = item;
        here = here;
        built = built;
      }

  get_network_found :
      (id device name : Text) (backend : DockerBackend) (raw : List DsmDockerNetworkItem)
      (n : DsmDockerNetworkItem)
      → parse_docker_id id ≡ ok (device, name)
      → find_backend s device ≡ ok backend
      → backend.list_docker_networks ≡ ok raw
      → find (is_network name) raw ≡ some n
      → get_network s id ≡ ok (map_docker_network_detail device n)
  unfolding get_network
  get_network_found id device name backend raw n p b c f =
      rw (p, b, c)
        (ap
          (λ (o : Option DsmDockerNetworkItem). elim o [
            | some x ↦ ok (map_docker_network_detail device x)
            | none ↦ err (
                wrap (plain (lit "network ") ∷ quoted id ∷ plain (lit " not found") ∷ [])
                  err_not_found)
          ])
          f)

  get_network-Origin :
      (device : Option Text) (w : DockerNetwork)
      → IsRoutable s
      → w.name ≢ []
      → Origin device w
      → (d : DockerNetworkDetail) × (get_network s w.id ≡ ok d) × (d.id ≡ w.id)
  unfolding map_docker_network map_docker_network_detail is_network
  get_network-Origin device w ready named o =
      let name : o.item.name ≡ w.name = ap (λ (x : DockerNetwork). x.name) o.built in
      let id : docker_id o.entry.name o.item.name ≡ w.id =
        ap (λ (x : DockerNetwork). x.id) o.built in
      let (n, found, _, t) =
        find_of_In (is_network o.item.name) o.item o.raw o.here (==_refl o.item.name) in
      (
        map_docker_network_detail o.entry.name n,
        get_network_found w.id o.entry.name o.item.name o.entry.backend o.raw n
            (ap parse_docker_id (sym id)
              ∙ parse_docker_id-docker_id s ready o.entry o.listed o.item.name (rw name named))
            (find_backend-In s ready o.entry o.listed (not_skipped s device o.entry o.read).1) o.got
            found,
        ap (docker_id o.entry.name) (==_sound n.name o.item.name t) ∙ id,
      )

  -- Every listed Docker network with a name is found under its ID, if the devices' names differ,
  -- hold no dot and are not empty.
  pub get_network-list_networks :
      (device : Option Text) (items : List DockerNetwork) (w : DockerNetwork)
      → (list_networks s device).result ≡ ok items
      → In w items
      → IsRoutable s
      → w.name ≢ []
      → (d : DockerNetworkDetail) × (get_network s w.id ≡ ok d) × (d.id ≡ w.id)
  get_network-list_networks device items w h i ready named =
      get_network-Origin device w ready named (list_networks-Origin device items w h i)
