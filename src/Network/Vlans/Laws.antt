-- ===== src/Network/Vlans/Laws.antt =====
-- internal/network/vlans_service.go: the VLANs that are listed can be looked up.
use homelab_api.Base.{
  Text, ==_refl, ==_sound, true, Option, some, none, List, [], ◌≡◌, ◌≢◌, sym, ap, ◌∙◌, arith, In,
  In-map_inv, In-filter_inv, find, find_of_In, filter, lit,
}
use homelab_api.Base.Strings.Lower.{Unicode}
use homelab_api.Base.Result.{ok, err}
use homelab_api.Base.Loop.{for_each_inv, Appended, Appended-next, Appended-guard, Appended-or_warn}
use homelab_api.Adapters.Registry.{BackendEntry}
use homelab_api.Adapters.Listing.{is_unavailable}
use homelab_api.Adapters.UniFi.{UniFiNetworkConf}
use homelab_api.Network.Kebab.{to_kebab}
use homelab_api.Network.Service.{
  UniFiBackend, Service, composite_id, find_backend, parse_id, missing,
}
use homelab_api.Network.Service.Laws.{IsRoutable, find_backend-In, parse_id-composite_id}
use homelab_api.Network.Vlans.{
  Net, Vlan, network_to_vlan, build_vlan_detail, is_lan_network, is_vlan, vlans_round, list_vlans,
  get_vlan,
}

module _ ⦃u : Unicode⦄ ⦃net : Net⦄ (s : Service) where
  -- Where an item of the list comes from.
  pub record Origin (w : Vlan) : Type 0 where
    pub entry : BackendEntry UniFiBackend
    pub listed : In entry s.backends
    pub networks : List UniFiNetworkConf
    pub network : UniFiNetworkConf
    pub got : entry.backend.get_network_conf ≡ ok networks
    pub here : In network networks
    pub lan : is_lan_network network ≡ true
    pub built : network_to_vlan entry.name network ≡ w

  round-Origin :
      (entry : BackendEntry UniFiBackend) (w : Vlan)
      → In entry s.backends
      → Appended (vlans_round s entry) w
      → Origin w
  unfolding vlans_round
  round-Origin entry w i added =
      let (reachable, a) = Appended-guard w (is_unavailable s.monitor entry.name) _ added in
      let (networks, n, b) = Appended-or_warn w _ _ entry.backend.get_network_conf _ a in
      let (network, j, built) =
        In-map_inv (network_to_vlan entry.name) w (filter is_lan_network networks)
          (Appended-next w b) in
      let (here, lan) = In-filter_inv is_lan_network network networks j in
      record {
        entry = entry;
        listed = i;
        networks = networks;
        network = network;
        got = n;
        here = here;
        lan = lan;
        built = built;
      }

  get_vlan_found :
      (id controller name : Text) (backend : UniFiBackend) (networks : List UniFiNetworkConf)
      (n : UniFiNetworkConf)
      → parse_id id ≡ ok (controller, name)
      → find_backend s controller ≡ ok backend
      → backend.get_network_conf ≡ ok networks
      → find (is_vlan name) networks ≡ some n
      → get_vlan s id ≡ ok (build_vlan_detail controller n)
  unfolding get_vlan
  get_vlan_found id controller name backend networks n p b c f =
      rw (p, b, c)
        (ap
          (λ (o : Option UniFiNetworkConf). elim o [
            | some x ↦ ok (build_vlan_detail controller x)
            | none ↦ err (missing (lit "VLAN not found: ") id)
          ])
          f)

  is_vlan_self :
      (n : UniFiNetworkConf) → is_lan_network n ≡ true → is_vlan (to_kebab n.name) n ≡ true
  unfolding is_vlan
  is_vlan_self n t = rw (t, ==_refl)

  is_vlan-name :
      (k : Text) (n : UniFiNetworkConf)
      → is_vlan k n ≡ true
      → (is_lan_network n ≡ true) × (to_kebab n.name ≡ k)
  unfolding is_vlan
  is_vlan-name k n h = (ground arith, ==_sound (to_kebab n.name) k (ground arith))

  -- What GetVLAN returns for a listed VLAN: the detail of a LAN network of its controller that has
  -- the same name in kebab case.
  abbrev pub IsFound : (w : Vlan) → Origin w → Type 0
  IsFound w o =
      (n : UniFiNetworkConf) × In n o.networks
      × (is_lan_network n ≡ true)
      × (to_kebab n.name ≡ to_kebab w.name)
      × (get_vlan s w.id ≡ ok (build_vlan_detail o.entry.name n))
      × ((build_vlan_detail o.entry.name n).id ≡ w.id)

  get_vlan-Origin : (w : Vlan) → IsRoutable s → to_kebab w.name ≢ [] → (o : Origin w) → IsFound w o
  unfolding network_to_vlan build_vlan_detail
  get_vlan-Origin w ready named o =
      let name : o.network.name ≡ w.name = ap (λ (x : Vlan). x.name) o.built in
      let id : composite_id o.entry.name (to_kebab o.network.name) ≡ w.id =
        ap (λ (x : Vlan). x.id) o.built in
      let (n, found, at, t) =
        find_of_In (is_vlan (to_kebab o.network.name)) o.network o.networks o.here
          (is_vlan_self o.network o.lan) in
      let (lan, same) = is_vlan-name (to_kebab o.network.name) n t in
      (
        n,
        at,
        lan,
        same ∙ ap to_kebab name,
        get_vlan_found w.id o.entry.name (to_kebab o.network.name) o.entry.backend o.networks n
            (ap parse_id (sym id)
              ∙ parse_id-composite_id s ready o.entry o.listed (to_kebab o.network.name)
                  (rw name named))
            (find_backend-In s ready o.entry o.listed) o.got found,
        ap (composite_id o.entry.name) same ∙ id,
      )

  -- Every VLAN of the list is found under its ID, if the controllers' names differ, hold no dot and
  -- are not empty, and the VLAN's own name is not empty in kebab case: the detail is of a LAN
  -- network of the same controller with the same name in kebab case.
  pub get_vlan-list_vlans :
      (items : List Vlan) (w : Vlan)
      → (list_vlans s).result ≡ ok items
      → In w items
      → IsRoutable s
      → to_kebab w.name ≢ []
      → (o : Origin w) × IsFound w o
  unfolding list_vlans
  get_vlan-list_vlans items w h i ready named =
      let (entry, j, added) = for_each_inv (vlans_round s) s.backends items w h i in
      let o = round-Origin entry w j added in (o, get_vlan-Origin w ready named o)
