-- ===== src/Network/Topology/Passes.antt =====
-- internal/network/topology_service.go: the edges of each pass, and of the whole graph, join its nodes.
use homelab_api.Base.{
  Text, ◌==◌, Bool, true, false, if◌then◌else◌, Option, some, none, List, [], ◌≡◌, refl, In,
  Bool-cases, inl, inr,
}
use homelab_api.Base.Int.{ℤ}
use homelab_api.Base.Dict.{lookup, lookup-index_by}
use homelab_api.Base.Strings.Lower.{Unicode}
use homelab_api.Adapters.UniFi.{UniFiDevice, UniFiSta, UniFiClientV2, UniFiUplink}
use homelab_api.Network.Kebab.{normalize_mac}
use homelab_api.Network.Refs.{
  NetworkClientRef, device_ref, build_mac_to_device, client_ref, client_ref_v2,
}
use homelab_api.Network.Topology.{
  TopologyNode, TopologyEdge, build_device_node, build_device_uplink_edge, towards, uplink_edge,
  build_online_client_node, build_online_client_edge, build_offline_client_node,
  build_offline_client_edge, wireless, offline_edges,
}
use homelab_api.Network.Topology.Graph.{device_pass, online_pass, offline_pass}
use homelab_api.Network.Topology.Laws.{
  IsDeviceNode, IsClientNode, AllJoin, AllJoin-each, In-each, Extends,
}

module _ ⦃u : Unicode⦄ (controller : Text) (devices : List UniFiDevice)
    (nodes : List TopologyNode) where
  device_ref-IsDeviceNode :
      (d : UniFiDevice)
      → In (build_device_node controller d) nodes
      → IsDeviceNode nodes (device_ref controller d)
  unfolding build_device_node device_ref
  device_ref-IsDeviceNode d i = record { node = _; listed = i; same_id = refl; same_name = refl }

  -- Every device is a node.
  abbrev pub Placed : Type 0
  Placed = (d : UniFiDevice) → In d devices → In (build_device_node controller d) nodes

  AllJoin-towards :
      (mac : Text) (edges : UniFiDevice → List TopologyEdge)
      → Placed
      → ((d : UniFiDevice) → IsDeviceNode nodes (device_ref controller d) → AllJoin nodes (edges d))
      → AllJoin nodes (towards (build_mac_to_device devices) mac edges)
  unfolding towards build_mac_to_device
  AllJoin-towards mac edges placed h = elim (Bool-cases (mac == [])) [
    | inl y ↦ rw y tt
    | inr n ↦ rw n (found (lookup (normalize_mac mac) (build_mac_to_device devices)) refl)
  ]
    where
      found :
          (o : Option UniFiDevice)
          → lookup (normalize_mac mac) (build_mac_to_device devices) ≡ o
          → AllJoin nodes (elim o [ none ↦ [] | some upstream ↦ edges upstream ])
      found none e = tt
      found (some d) e = h d (
          device_ref-IsDeviceNode d
            (placed d (lookup-index_by (λ (x : UniFiDevice). normalize_mac x.mac) devices _ d e).0))

  AllJoin-uplink_edge :
      (d : UniFiDevice) (o : Option UniFiUplink)
      → Placed
      → In (build_device_node controller d) nodes
      → AllJoin nodes (uplink_edge controller (build_mac_to_device devices) d o)
  unfolding uplink_edge build_device_uplink_edge
  AllJoin-uplink_edge d none placed i = tt
  AllJoin-uplink_edge d (some uplink) placed i =
      AllJoin-towards uplink.uplink_mac _ placed
        (λ upstream t. ((device_ref-IsDeviceNode d i, t), tt))

  pub AllJoin-device_pass :
      Extends (device_pass controller devices).nodes nodes
      → AllJoin nodes (device_pass controller devices).edges
  unfolding device_pass
  AllJoin-device_pass h =
      AllJoin-each _ _ nodes devices h
        (λ d i j. AllJoin-uplink_edge d d.uplink (λ x k. h _ (In-each _ _ devices x k)) j)

  client_ref-IsClientNode :
      (sta : UniFiSta)
      → In (build_online_client_node controller sta) nodes
      → IsClientNode nodes (client_ref controller sta)
  unfolding build_online_client_node client_ref
  client_ref-IsClientNode sta i = record { node = _; listed = i; same_id = refl; same_name = refl }

  client_ref_v2-IsClientNode :
      (c : UniFiClientV2)
      → In (build_offline_client_node controller c) nodes
      → IsClientNode nodes (client_ref_v2 controller c)
  unfolding build_offline_client_node client_ref_v2
  client_ref_v2-IsClientNode c i = record { node = _; listed = i; same_id = refl; same_name = refl }

  AllJoin-wireless :
      (ref : NetworkClientRef) (signal : Option ℤ) (ssid : Option Text) (d : UniFiDevice)
      → IsClientNode nodes ref
      → IsDeviceNode nodes (device_ref controller d)
      → AllJoin nodes (wireless controller ref signal ssid d)
  AllJoin-wireless ref signal none d c t = tt
  AllJoin-wireless ref signal (some ssid) d c t = ((c, t), tt)

  AllJoin-if :
      (b : Bool) (x y : List TopologyEdge)
      → AllJoin nodes x
      → AllJoin nodes y
      → AllJoin nodes (if b then x else y)
  AllJoin-if true x y h k = h
  AllJoin-if false x y h k = k

  AllJoin-build_online_client_edge :
      (sta : UniFiSta)
      → Placed
      → In (build_online_client_node controller sta) nodes
      → AllJoin nodes (build_online_client_edge controller sta (build_mac_to_device devices))
  unfolding build_online_client_edge
  AllJoin-build_online_client_edge sta placed i =
      AllJoin-if sta.is_wired _ _
        (AllJoin-towards sta.sw_mac _ placed (λ d t. ((client_ref-IsClientNode sta i, t), tt)))
        (AllJoin-towards sta.ap_mac _ placed
          (λ d. AllJoin-wireless _ sta.signal sta.essid d (client_ref-IsClientNode sta i)))

  AllJoin-build_offline_client_edge :
      (c : UniFiClientV2)
      → Placed
      → In (build_offline_client_node controller c) nodes
      → AllJoin nodes (build_offline_client_edge controller c (build_mac_to_device devices))
  unfolding build_offline_client_edge
  AllJoin-build_offline_client_edge c placed i =
      AllJoin-towards c.last_uplink_mac _ placed (either c.is_wired)
    where
      either :
          (wired : Bool) (d : UniFiDevice)
          → IsDeviceNode nodes (device_ref controller d)
          → AllJoin nodes (offline_edges wired controller c d)
      either true = λ d t. ((client_ref_v2-IsClientNode c i, t), tt)
      either false = λ d. AllJoin-wireless _ none c.essid d (client_ref_v2-IsClientNode c i)

  pub AllJoin-online_pass :
      (stas : List UniFiSta)
      → Placed
      → Extends (online_pass controller (build_mac_to_device devices) stas).nodes nodes
      → AllJoin nodes (online_pass controller (build_mac_to_device devices) stas).edges
  unfolding online_pass
  AllJoin-online_pass stas placed h =
      AllJoin-each _ _ nodes stas h (λ sta i. AllJoin-build_online_client_edge sta placed)

  pub AllJoin-offline_pass :
      (clients : List UniFiClientV2)
      → Placed
      → Extends (offline_pass controller (build_mac_to_device devices) clients).nodes nodes
      → AllJoin nodes (offline_pass controller (build_mac_to_device devices) clients).edges
  unfolding offline_pass
  AllJoin-offline_pass clients placed h =
      AllJoin-each _ _ nodes clients h (λ c i. AllJoin-build_offline_client_edge c placed)
