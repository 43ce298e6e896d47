-- ===== src/Network/Topology/Graph.antt =====
-- internal/network/topology_service.go: GetTopology.
use homelab_api.Base.{Text, lit, Bool, if◌then◌else◌, List, [], ◌∷◌, ◌++◌}
use homelab_api.Base.Dict.{Dict, lookup}
use homelab_api.Base.Result.{plain, Part, Result, ok, ◌>>=◌, wrapping}
use homelab_api.Base.Strings.Lower.{Unicode}
use homelab_api.Adapters.Registry.{BackendEntry, Registry}
use homelab_api.Adapters.Listing.{is_unavailable}
use homelab_api.Adapters.UniFi.{UniFiDevice, UniFiSta, UniFiClientV2}
use homelab_api.Network.Service.{Service, UniFiBackend, or_zero}
use homelab_api.Network.Refs.{build_mac_to_device}
use homelab_api.Network.Topology.{
  TopologyNode, TopologyEdge, NetworkTopology, build_device_node, uplink_edge,
  build_online_client_node, build_online_client_edge, build_offline_client_node,
  build_offline_client_edge,
}

abbrev pub empty : NetworkTopology
empty = record { nodes = []; edges = [] }

abbrev pub join : NetworkTopology → NetworkTopology → NetworkTopology
join a b = record { nodes = a.nodes ++ b.nodes; edges = a.edges ++ b.edges }

-- A loop that appends one node and some edges for each of `xs`.
unfoldable pub each :
    {X : Type 0} → (X → TopologyNode) → (X → List TopologyEdge) → List X → NetworkTopology
each node edges [] = empty
each node edges (x ∷ xs) =
    join (record { nodes = node x ∷ []; edges = edges x }) (each node edges xs)

-- Pass 1
unfoldable pub device_pass : ⦃u : Unicode⦄ → Text → List UniFiDevice → NetworkTopology
device_pass controller devices =
    each (build_device_node controller)
      (λ (d : UniFiDevice). uplink_edge controller (build_mac_to_device devices) d d.uplink) devices

-- Pass 2
unfoldable pub online_pass :
    ⦃u : Unicode⦄ → Text → Dict UniFiDevice → List UniFiSta → NetworkTopology
online_pass controller by_mac stas =
    each (build_online_client_node controller)
      (λ (sta : UniFiSta). build_online_client_edge controller sta by_mac) stas

-- Pass 3
unfoldable pub offline_pass :
    ⦃u : Unicode⦄ → Text → Dict UniFiDevice → List UniFiClientV2 → NetworkTopology
offline_pass controller by_mac clients =
    each (build_offline_client_node controller)
      (λ (c : UniFiClientV2). build_offline_client_edge controller c by_mac) clients

-- "<what> from <name>"
abbrev from_backend : Text → Text → List Part
from_backend what name = plain what ∷ plain (lit " from ") ∷ plain name ∷ []

abbrev pub asked_devices : BackendEntry UniFiBackend → Result (List UniFiDevice)
asked_devices entry =
    wrapping (from_backend (lit "get unifi devices") entry.name) entry.backend.get_devices

abbrev pub asked_clients : BackendEntry UniFiBackend → Result (List UniFiSta)
asked_clients entry =
    wrapping (from_backend (lit "get unifi clients") entry.name) entry.backend.get_clients

abbrev pub asked_offline : Service → BackendEntry UniFiBackend → Result (List UniFiClientV2)
asked_offline s entry =
    wrapping (from_backend (lit "get offline clients") entry.name)
      (entry.backend.get_offline_clients (or_zero (lookup entry.name s.history_days)))

abbrev pub all_passes :
    ⦃u : Unicode⦄ → Text → List UniFiDevice → List UniFiSta → List UniFiClientV2 → NetworkTopology
all_passes controller devices stas offline = join (device_pass controller devices) (
    join (online_pass controller (build_mac_to_device devices) stas)
      (offline_pass controller (build_mac_to_device devices) offline))

module _ ⦃u : Unicode⦄ (s : Service) where
  unfoldable pub offline_clients :
      BackendEntry UniFiBackend → List UniFiDevice → List UniFiSta → Result NetworkTopology
  offline_clients entry devices stas =
      asked_offline s entry >>= λ offline. ok (all_passes entry.name devices stas offline)

  unfoldable pub client_passes :
      BackendEntry UniFiBackend → List UniFiDevice → Result NetworkTopology
  client_passes entry devices = asked_clients entry >>= offline_clients entry devices

  unfoldable pub device_passes :
      Bool → BackendEntry UniFiBackend → List UniFiDevice → Result NetworkTopology
  device_passes include_clients entry devices =
      if include_clients then client_passes entry devices else ok (device_pass entry.name devices)

  -- What one controller adds, unless it is not available.
  unfoldable pub backend_passes : Bool → BackendEntry UniFiBackend → Result NetworkTopology
  backend_passes include_clients entry = asked_devices entry >>= device_passes include_clients entry

  unfoldable pub topology_of : Bool → Registry UniFiBackend → Result NetworkTopology
  topology_of include_clients [] = ok empty
  topology_of include_clients (entry ∷ entries) =
      let rest = topology_of include_clients entries in
      if is_unavailable s.monitor entry.name
      then rest
      else backend_passes include_clients entry >>= λ part. rest >>= λ more. ok (join part more)

  unfoldable pub get_topology : Bool → Result NetworkTopology
  get_topology include_clients = topology_of include_clients s.backends
