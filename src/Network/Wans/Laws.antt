-- ===== src/Network/Wans/Laws.antt =====
-- The WANs that are listed can be looked up.
use homelab_api.Base.{
  Text, ==_refl, ==_sound, true, some, List, [], ◌≡◌, ◌≢◌, sym, ap, ◌∙◌, arith, In, In-map_inv,
  In-filter_inv, find, find_of_In, filter,
}
use homelab_api.Base.Strings.Lower.{Unicode}
use homelab_api.Base.Result.{ok}
use homelab_api.Base.Loop.{for_each_inv, Appended, Appended-next, Appended-guard, Appended-or_warn}
use homelab_api.Adapters.Registry.{BackendEntry}
use homelab_api.Adapters.Listing.{is_unavailable}
use homelab_api.Adapters.UniFi.{UniFiDevice, UniFiNetworkConf}
use homelab_api.Network.Kebab.{to_kebab}
use homelab_api.Network.Service.{UniFiBackend, Service, composite_id, find_backend, parse_id}
use homelab_api.Network.Service.Laws.{IsRoutable, find_backend-In, parse_id-composite_id}
use homelab_api.Network.Wans.{
  Wan, WanDetail, build_wan, build_wan_detail, find_gateway, is_wan, wans_round, list_wans,
  find_wan, get_wan,
}

module _ ⦃u : Unicode⦄ (s : Service) where
  -- Where an item of the list comes from.
  record Origin (w : Wan) : Type 0 where
    entry : BackendEntry UniFiBackend
    listed : In entry s.backends
    networks : List UniFiNetworkConf
    devices : List UniFiDevice
    network : UniFiNetworkConf
    got_networks : entry.backend.get_network_conf ≡ ok networks
    got_devices : entry.backend.get_devices ≡ ok devices
    here : In network networks
    wan : is_wan network ≡ true
    built : build_wan entry.name (find_gateway devices) network ≡ w

  round-Origin :
      (entry : BackendEntry UniFiBackend) (w : Wan)
      → In entry s.backends
      → Appended (wans_round s entry) w
      → Origin w
  unfolding wans_round
  round-Origin entry w i added =
      let (reachable, a) = Appended-guard w (is_unavailable s.monitor entry.name) _ added in
      let (networks, n, b) = Appended-or_warn w _ _ entry.backend.get_network_conf _ a in
      let (devices, d, c) = Appended-or_warn w _ _ entry.backend.get_devices _ b in
      let (network, j, built) =
        In-map_inv (build_wan entry.name (find_gateway devices)) w (filter is_wan networks)
          (Appended-next w c) in
      let (here, wan) = In-filter_inv is_wan network networks j in
      record {
        entry = entry;
        listed = i;
        networks = networks;
        devices = devices;
        network = network;
        got_networks = n;
        got_devices = d;
        here = here;
        wan = wan;
        built = built;
      }

  get_wan_found :
      (id controller name : Text) (backend : UniFiBackend) (networks : List UniFiNetworkConf)
      (devices : List UniFiDevice) (n : UniFiNetworkConf)
      → parse_id id ≡ ok (controller, name)
      → find_backend s controller ≡ ok backend
      → backend.get_network_conf ≡ ok networks
      → backend.get_devices ≡ ok devices
      → find (find_wan name) networks ≡ some n
      → get_wan s id ≡ ok (build_wan_detail controller (find_gateway devices) n)
  unfolding get_wan
  get_wan_found id controller name backend networks devices n p b c d f = rw (p, b, c, d, f)

  find_wan_self : (n : UniFiNetworkConf) → is_wan n ≡ true → find_wan (to_kebab n.name) n ≡ true
  unfolding find_wan
  find_wan_self n t = rw (t, ==_refl)

  find_wan-name : (k : Text) (n : UniFiNetworkConf) → find_wan k n ≡ true → to_kebab n.name ≡ k
  unfolding find_wan
  find_wan-name k n h = ==_sound (to_kebab n.name) k (ground arith)

  get_wan-Origin :
      (w : Wan)
      → IsRoutable s
      → to_kebab w.name ≢ []
      → Origin w
      → (d : WanDetail) × (get_wan s w.id ≡ ok d) × (d.id ≡ w.id)
  unfolding build_wan build_wan_detail
  get_wan-Origin w ready named o =
      let name : o.network.name ≡ w.name = ap (λ (x : Wan). x.name) o.built in
      let id : composite_id o.entry.name (to_kebab o.network.name) ≡ w.id =
        ap (λ (x : Wan). x.id) o.built in
      let (n, found, _, t) =
        find_of_In (find_wan (to_kebab o.network.name)) o.network o.networks o.here
          (find_wan_self o.network o.wan) in
      (
        build_wan_detail o.entry.name (find_gateway o.devices) n,
        get_wan_found w.id o.entry.name (to_kebab o.network.name) o.entry.backend o.networks
            o.devices n
            (ap parse_id (sym id)
              ∙ parse_id-composite_id s ready o.entry o.listed (to_kebab o.network.name)
                  (rw name named))
            (find_backend-In s ready o.entry o.listed) o.got_networks o.got_devices found,
        ap (composite_id o.entry.name) (find_wan-name (to_kebab o.network.name) n t) ∙ id,
      )

  -- Every WAN of the list is found under its ID, if the controllers' names differ, hold no dot and
  -- are not empty, and the WAN's own name is not empty in kebab case.
  pub get_wan-list_wans :
      (items : List Wan) (w : Wan)
      → (list_wans s).result ≡ ok items
      → In w items
      → IsRoutable s
      → to_kebab w.name ≢ []
      → (d : WanDetail) × (get_wan s w.id ≡ ok d) × (d.id ≡ w.id)
  unfolding list_wans
  get_wan-list_wans items w h i ready named =
      let (entry, j, added) = for_each_inv (wans_round s) s.backends items w h i in
      get_wan-Origin w ready named (round-Origin entry w j added)
