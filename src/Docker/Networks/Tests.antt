-- ===== src/Docker/Networks/Tests.antt =====
-- One device with one Docker network.
use homelab_api.Base.{lit, ◌==◌, some, [], ◌∷◌, ◌≡◌, refl, inl}
use homelab_api.Base.Result.{ok}
use homelab_api.Base.Loop.{for_each}
use homelab_api.Docker.Service.{docker_id}
use homelab_api.Docker.Sample.{one_device, one_device-IsRoutable}
use homelab_api.Docker.Networks.{
  DockerNetwork, DockerNetworkDetail, list_networks, get_network, map_docker_network,
}
use homelab_api.Docker.Networks.Laws.{get_network-list_networks}

abbrev listed : DockerNetwork
listed = record {
  id = lit "nas.bridge";
  name = lit "bridge";
  device = lit "nas";
  connected_containers = 1;
}

one_device_listed : (list_networks one_device (some (lit "nas"))).result ≡ ok (listed ∷ [])
unfolding list_networks for_each ◌==◌ lit docker_id map_docker_network
one_device_listed = refl

get_network-list_networks_example :
    (d : DockerNetworkDetail) × (get_network one_device listed.id ≡ ok d) × (d.id ≡ listed.id)
unfolding lit
get_network-list_networks_example =
    get_network-list_networks one_device (some (lit "nas")) (listed ∷ []) listed one_device_listed
      (inl refl) one_device-IsRoutable (λ e. cc)
