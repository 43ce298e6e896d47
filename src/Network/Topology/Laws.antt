-- ===== src/Network/Topology/Laws.antt =====
-- internal/network/topology_service.go: the edges join nodes of the graph.
use homelab_api.Base.{List, [], ◌∷◌, ◌≡◌, refl, ap, In, All, All-append, All-imp, inl, inr}
use homelab_api.Network.Refs.{NetworkDeviceRef, NetworkClientRef}
use homelab_api.Network.Topology.{
  TopologyNode, TopologyDeviceNode, TopologyClientNode, device_node, client_node, TopologyEdge,
  wired_edge, wireless_edge, NetworkConnectionRef, device_source, client_source, NetworkTopology,
}
use homelab_api.Network.Topology.Graph.{join, each}

-- A node for the device, with the same ID and name.
pub record IsDeviceNode (nodes : List TopologyNode) (ref : NetworkDeviceRef) : Type 0 where
  pub node : TopologyDeviceNode
  pub listed : In (device_node node) nodes
  pub same_id : node.id ≡ ref.id
  pub same_name : node.name ≡ ref.name

pub record IsClientNode (nodes : List TopologyNode) (ref : NetworkClientRef) : Type 0 where
  pub node : TopologyClientNode
  pub listed : In (client_node node) nodes
  pub same_id : node.id ≡ ref.id
  pub same_name : node.name ≡ ref.name

abbrev pub IsSourceNode : List TopologyNode → NetworkConnectionRef → Type 0
IsSourceNode nodes (device_source ref) = IsDeviceNode nodes ref
IsSourceNode nodes (client_source ref) = IsClientNode nodes ref

-- Both ends of the edge are nodes.
abbrev pub Joins : List TopologyNode → TopologyEdge → Type 0
Joins nodes (wired_edge e) = IsSourceNode nodes e.source × IsDeviceNode nodes e.target
Joins nodes (wireless_edge e) = IsClientNode nodes e.source × IsDeviceNode nodes e.target

abbrev pub Extends : List TopologyNode → List TopologyNode → Type 0
Extends nodes more = (n : TopologyNode) → In n nodes → In n more

module _ (nodes more : List TopologyNode) (h : Extends nodes more) where
  device-more : (ref : NetworkDeviceRef) → IsDeviceNode nodes ref → IsDeviceNode more ref
  device-more ref d = record {
    node = d.node;
    listed = h _ d.listed;
    same_id = d.same_id;
    same_name = d.same_name;
  }

  client-more : (ref : NetworkClientRef) → IsClientNode nodes ref → IsClientNode more ref
  client-more ref d = record {
    node = d.node;
    listed = h _ d.listed;
    same_id = d.same_id;
    same_name = d.same_name;
  }

  source-more : (ref : NetworkConnectionRef) → IsSourceNode nodes ref → IsSourceNode more ref
  source-more (device_source ref) d = device-more ref d
  source-more (client_source ref) d = client-more ref d

  Joins-more : (e : TopologyEdge) → Joins nodes e → Joins more e
  Joins-more (wired_edge e) (s, t) = (source-more e.source s, device-more e.target t)
  Joins-more (wireless_edge e) (s, t) = (client-more e.source s, device-more e.target t)

-- All edges of `edges` join nodes of `nodes`.
abbrev pub AllJoin : List TopologyNode → List TopologyEdge → Type 0
AllJoin nodes edges = All (Joins nodes) edges

pub AllJoin-more :
    (nodes more : List TopologyNode) (edges : List TopologyEdge)
    → Extends nodes more
    → AllJoin nodes edges
    → AllJoin more edges
AllJoin-more nodes more edges h a = All-imp _ _ (Joins-more nodes more h) edges a

pub AllJoin-join :
    (nodes : List TopologyNode) (a b : NetworkTopology)
    → AllJoin nodes a.edges
    → AllJoin nodes b.edges
    → AllJoin nodes (join a b).edges
AllJoin-join nodes a b x y = All-append _ a.edges b.edges x y

-- The loop's edges join nodes if those of each round do, where the round's own node may be used.
pub AllJoin-each :
    {X : Type 0} (node : X → TopologyNode) (edges : X → List TopologyEdge)
    (nodes : List TopologyNode) (xs : List X)
    → Extends (each node edges xs).nodes nodes
    → ((x : X) → In x xs → In (node x) nodes → AllJoin nodes (edges x))
    → AllJoin nodes (each node edges xs).edges
unfolding each
AllJoin-each node edges nodes [] h round = tt
AllJoin-each node edges nodes (x ∷ xs) h round =
    All-append _ (edges x) (each node edges xs).edges (round x (inl refl) (h (node x) (inl refl)))
      (AllJoin-each node edges nodes xs (λ n i. h n (inr i)) (λ y i. round y (inr i)))

pub In-each :
    {X : Type 0} (node : X → TopologyNode) (edges : X → List TopologyEdge) (xs : List X) (x : X)
    → In x xs
    → In (node x) (each node edges xs).nodes
unfolding each
In-each node edges [] x i = absurd i
In-each node edges (y ∷ xs) x (inl e) = inl (ap node e)
In-each node edges (y ∷ xs) x (inr i) = inr (In-each node edges xs x i)
