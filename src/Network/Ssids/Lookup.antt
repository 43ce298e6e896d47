-- ===== src/Network/Ssids/Lookup.antt =====
-- The wireless networks that are listed can be looked up.
use homelab_api.Base.{
  Text, ==_refl, ==_sound, List, [], filter, ◌≡◌, ◌≢◌, refl, sym, ap, ◌∙◌, In, In-map_inv,
  In-filter_inv, find, find_of_In,
}
use homelab_api.Base.Strings.Lower.{Unicode}
use homelab_api.Base.Result.{ok}
use homelab_api.Base.Loop.{for_each_inv, Appended, Appended-next, Appended-guard, Appended-or_warn}
use homelab_api.Adapters.Registry.{BackendEntry}
use homelab_api.Adapters.Listing.{is_unavailable}
use homelab_api.Adapters.UniFi.{UniFiDevice, UniFiSta, UniFiWlanConf, UniFiNetworkConf}
use homelab_api.Network.Kebab.{to_kebab}
use homelab_api.Network.Service.{UniFiBackend, Service, composite_id, find_backend, parse_id}
use homelab_api.Network.Service.Laws.{IsRoutable, find_backend-In, parse_id-composite_id}
use homelab_api.Network.Ssids.{
  Ssid, SsidDetail, map_ssid, map_ssid_detail, is_ssid, ssid_found, ssids_round, list_ssids,
  get_ssid,
}

module _ ⦃u : Unicode⦄ (s : Service) where
  -- Where an item of the list comes from.
  pub record Origin (w : Ssid) : Type 0 where
    pub entry : BackendEntry UniFiBackend
    pub listed : In entry s.backends
    pub wlans : List UniFiWlanConf
    pub networks : List UniFiNetworkConf
    pub clients : List UniFiSta
    pub wlan : UniFiWlanConf
    pub got_wlans : entry.backend.get_wlan_conf ≡ ok wlans
    pub got_networks : entry.backend.get_network_conf ≡ ok networks
    pub got_clients : entry.backend.get_clients ≡ ok clients
    pub here : In wlan wlans
    pub built : map_ssid entry.name networks clients wlan ≡ w

  round-Origin :
      (entry : BackendEntry UniFiBackend) (w : Ssid)
      → In entry s.backends
      → Appended (ssids_round s entry) w
      → Origin w
  unfolding ssids_round
  round-Origin entry w i added =
      let (_, a) = Appended-guard w (is_unavailable s.monitor entry.name) _ added in
      let (wlans, l, b) = Appended-or_warn w _ _ entry.backend.get_wlan_conf _ a in
      let (networks, n, c) = Appended-or_warn w _ _ entry.backend.get_network_conf _ b in
      let (clients, k, d) = Appended-or_warn w _ _ entry.backend.get_clients _ c in
      let (wlan, j, built) =
        In-map_inv (map_ssid entry.name networks clients) w
          (filter (λ (x : UniFiWlanConf). x.enabled) wlans) (Appended-next w d) in
      let (here, _) = In-filter_inv (λ (x : UniFiWlanConf). x.enabled) wlan wlans j in
      record {
        entry = entry;
        listed = i;
        wlans = wlans;
        networks = networks;
        clients = clients;
        wlan = wlan;
        got_wlans = l;
        got_networks = n;
        got_clients = k;
        here = here;
        built = built;
      }

  get_ssid-search :
      (id controller name : Text) (backend : UniFiBackend) (wlans : List UniFiWlanConf)
      (networks : List UniFiNetworkConf) (clients : List UniFiSta) (devices : List UniFiDevice)
      → parse_id id ≡ ok (controller, name)
      → find_backend s controller ≡ ok backend
      → backend.get_wlan_conf ≡ ok wlans
      → backend.get_network_conf ≡ ok networks
      → backend.get_clients ≡ ok clients
      → backend.get_devices ≡ ok devices
      → get_ssid s id
        ≡ ssid_found id controller networks clients devices (find (is_ssid name) wlans)
  unfolding get_ssid
  get_ssid-search id controller name backend wlans networks clients devices p b l n k d =
      rw (p, b, l, n, k, d) refl

  -- The detail that GetSSID returns is of a WLAN of the same controller: one whose name in kebab case
  -- is that of the listed network, from which the ID is made.
  abbrev pub IsFound : (w : Ssid) → Origin w → Type 0
  IsFound w o =
      (d : SsidDetail) × (get_ssid s w.id ≡ ok d)
      × (d.id ≡ w.id)
      × (composite_id o.entry.name (to_kebab d.name) ≡ w.id)
      × (to_kebab d.name ≡ to_kebab w.name)
      × ((wlan : UniFiWlanConf) × In wlan o.wlans × (d.name ≡ wlan.name))

  get_ssid-Origin :
      (w : Ssid) (devices : List UniFiDevice)
      → IsRoutable s
      → to_kebab w.name ≢ []
      → (o : Origin w) → o.entry.backend.get_devices ≡ ok devices
      → IsFound w o
  unfolding map_ssid ssid_found map_ssid_detail is_ssid
  get_ssid-Origin w devices ready named o got_devices =
      let name : o.wlan.name ≡ w.name = ap (λ (x : Ssid). x.name) o.built in
      let id : composite_id o.entry.name (to_kebab o.wlan.name) ≡ w.id =
        ap (λ (x : Ssid). x.id) o.built in
      let parsed =
        ap parse_id (sym id)
        ∙ parse_id-composite_id s ready o.entry o.listed (to_kebab o.wlan.name) (rw name named) in
      let (wlan, found, here, matches) =
        find_of_In (is_ssid (to_kebab o.wlan.name)) o.wlan o.wlans o.here
          (==_refl (to_kebab o.wlan.name)) in
      let same : to_kebab wlan.name ≡ to_kebab o.wlan.name =
        ==_sound (to_kebab wlan.name) (to_kebab o.wlan.name) matches in
      (
        map_ssid_detail w.id o.entry.name o.networks o.clients devices wlan,
        get_ssid-search w.id o.entry.name (to_kebab o.wlan.name) o.entry.backend o.wlans o.networks
              o.clients devices parsed (find_backend-In s ready o.entry o.listed) o.got_wlans
              o.got_networks o.got_clients got_devices
            ∙ ap (ssid_found w.id o.entry.name o.networks o.clients devices) found,
        refl,
        ap (composite_id o.entry.name) same ∙ id,
        same ∙ ap to_kebab name,
        (wlan, here, refl),
      )

  -- Every listed wireless network is found under its ID, if the controllers answer for their
  -- devices, their names differ, hold no dot and are not empty, and the network's own name is not
  -- empty in kebab case: the detail is of a WLAN of the same controller with the same name in kebab
  -- case.
  pub get_ssid-list_ssids :
      (items : List Ssid) (w : Ssid)
      → (list_ssids s).result ≡ ok items
      → In w items
      → IsRoutable s
      → to_kebab w.name ≢ []
      → ((entry : BackendEntry UniFiBackend)
          → In entry s.backends
          → (devices : List UniFiDevice) × (entry.backend.get_devices ≡ ok devices))
      → (o : Origin w) × IsFound w o
  unfolding list_ssids
  get_ssid-list_ssids items w h i ready named answers =
      let (entry, j, added) = for_each_inv (ssids_round s) s.backends items w h i in
      let o = round-Origin entry w j added in
      let (devices, got) = answers o.entry o.listed in
      (o, get_ssid-Origin w devices ready named o got)
