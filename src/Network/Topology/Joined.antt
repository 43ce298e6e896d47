-- ===== src/Network/Topology/Joined.antt =====
-- internal/network/topology_service.go: every edge of GetTopology's answer joins two of its nodes.
use homelab_api.Base.{
  Text, Bool, true, false, if◌then◌else◌, List, [], ◌∷◌, ◌++◌, ◌≡◌, subst, In-append_left,
  In-append_right,
}
use homelab_api.Base.Result.{Result, ok, err, ◌>>=◌}
use homelab_api.Base.Strings.Lower.{Unicode}
use homelab_api.Adapters.Registry.{BackendEntry, Registry}
use homelab_api.Adapters.Listing.{is_unavailable}
use homelab_api.Adapters.UniFi.{UniFiDevice, UniFiSta, UniFiClientV2}
use homelab_api.Network.Service.{Service, UniFiBackend}
use homelab_api.Network.Refs.{build_mac_to_device}
use homelab_api.Network.Topology.{NetworkTopology}
use homelab_api.Network.Topology.Graph.{
  join, device_pass, online_pass, offline_pass, offline_clients, client_passes, device_passes,
  backend_passes, asked_devices, asked_clients, asked_offline, all_passes, topology_of,
  get_topology,
}
use homelab_api.Network.Topology.Laws.{AllJoin, AllJoin-more, AllJoin-join, In-each, Extends}
use homelab_api.Network.Topology.Passes.{
  Placed, AllJoin-device_pass, AllJoin-online_pass, AllJoin-offline_pass,
}

-- Every edge of the graph joins two of its nodes.
abbrev pub IsJoined : NetworkTopology → Type 0
IsJoined t = AllJoin t.nodes t.edges

IsJoined-join : (a b : NetworkTopology) → IsJoined a → IsJoined b → IsJoined (join a b)
IsJoined-join a b x y =
    AllJoin-join (join a b).nodes a b
      (AllJoin-more a.nodes _ a.edges (λ n. In-append_left n a.nodes b.nodes) x)
      (AllJoin-more b.nodes _ b.edges (λ n. In-append_right n a.nodes b.nodes) y)

module _ ⦃u : Unicode⦄ where
  IsJoined-passes :
      (controller : Text) (devices : List UniFiDevice) (stas : List UniFiSta)
      (clients : List UniFiClientV2)
      → IsJoined (
          join (device_pass controller devices) (
            join
              (online_pass controller (build_mac_to_device devices) stas)
              (offline_pass controller (build_mac_to_device devices) clients)))
  unfolding device_pass
  IsJoined-passes controller devices stas clients =
      let a = device_pass controller devices in
      let b = online_pass controller (build_mac_to_device devices) stas in
      let c = offline_pass controller (build_mac_to_device devices) clients in
      let nodes = (join a (join b c)).nodes in
      let in_a : Extends a.nodes nodes = λ n. In-append_left n a.nodes (b.nodes ++ c.nodes) in
      let in_b : Extends b.nodes nodes = λ n i.
        In-append_right n a.nodes (b.nodes ++ c.nodes) (In-append_left n b.nodes c.nodes i) in
      let in_c : Extends c.nodes nodes = λ n i.
        In-append_right n a.nodes (b.nodes ++ c.nodes) (In-append_right n b.nodes c.nodes i) in
      let placed : Placed controller devices nodes = λ d i. in_a _ (In-each _ _ devices d i) in
      AllJoin-join nodes a (join b c) (AllJoin-device_pass controller devices nodes in_a) (
        AllJoin-join nodes b c (AllJoin-online_pass controller devices nodes stas placed in_b)
          (AllJoin-offline_pass controller devices nodes clients placed in_c))

  -- The result is an error, or a graph whose edges join its nodes.
  abbrev Sound : Result NetworkTopology → Type 0
  Sound (ok t) = IsJoined t
  Sound (err e) = Unit

  Sound-bind :
      {A : Type 0} (r : Result A) (f : A → Result NetworkTopology)
      → ((a : A) → Sound (f a))
      → Sound (r >>= f)
  Sound-bind (ok a) f h = h a
  Sound-bind (err e) f h = tt

  module _ (s : Service) where
    Sound-offline_clients :
        (entry : BackendEntry UniFiBackend) (devices : List UniFiDevice) (stas : List UniFiSta)
        → Sound (offline_clients s entry devices stas)
    unfolding offline_clients
    Sound-offline_clients entry devices stas =
        Sound-bind (asked_offline s entry)
          (λ offline. ok (all_passes entry.name devices stas offline))
          (IsJoined-passes entry.name devices stas)

    Sound-client_passes :
        (entry : BackendEntry UniFiBackend) (devices : List UniFiDevice)
        → Sound (client_passes s entry devices)
    unfolding client_passes
    Sound-client_passes entry devices =
        Sound-bind (asked_clients entry) (offline_clients s entry devices)
          (Sound-offline_clients entry devices)

    Sound-device_pass :
        (controller : Text) (devices : List UniFiDevice) → IsJoined (device_pass controller devices)
    Sound-device_pass controller devices = AllJoin-device_pass controller devices _ (λ n i. i)

    Sound-if :
        (b : Bool) (x y : Result NetworkTopology) → Sound x → Sound y → Sound (if b then x else y)
    Sound-if true x y h k = h
    Sound-if false x y h k = k

    Sound-backend_passes :
        (include_clients : Bool) (entry : BackendEntry UniFiBackend)
        → Sound (backend_passes s include_clients entry)
    unfolding backend_passes device_passes
    Sound-backend_passes include_clients entry =
        Sound-bind (asked_devices entry) (device_passes s include_clients entry) λ devices.
          Sound-if include_clients _ _ (Sound-client_passes entry devices)
            (Sound-device_pass entry.name devices)

    Sound-join :
        (r rest : Result NetworkTopology)
        → Sound r
        → Sound rest
        → Sound (r >>= λ part. rest >>= λ more. ok (join part more))
    Sound-join (ok part) (ok more) h k = IsJoined-join part more h k
    Sound-join (ok part) (err e) h k = tt
    Sound-join (err e) rest h k = tt

    Sound-topology_of :
        (include_clients : Bool) (entries : Registry UniFiBackend)
        → Sound (topology_of s include_clients entries)
    unfolding topology_of
    Sound-topology_of include_clients [] = tt
    Sound-topology_of include_clients (entry ∷ entries) =
        let later = Sound-topology_of include_clients entries in
        Sound-if (is_unavailable s.monitor entry.name) _ _ later (
          Sound-join (backend_passes s include_clients entry) _
            (Sound-backend_passes include_clients entry) later)

    -- Every edge of GetTopology's answer, with or without clients, joins two nodes of the answer:
    -- its source and its target have the ID and the name of a node of their kind.
    pub get_topology-IsJoined :
        (include_clients : Bool) (t : NetworkTopology)
        → get_topology s include_clients ≡ ok t
        → IsJoined t
    unfolding get_topology
    get_topology-IsJoined include_clients t h =
        subst Sound h (Sound-topology_of include_clients s.backends)
