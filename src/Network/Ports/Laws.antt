-- ===== src/Network/Ports/Laws.antt =====
-- internal/network/ports_service.go: the filter keeps exactly the ports that match.
use homelab_api.Base.{
  Bool, true, false, not, if◌then◌else◌, none, List, [], ◌∷◌, ◌++◌, filter, ◌≡◌, ◌↔◌, refl, ap,
}
use homelab_api.Base.Strings.Lower.{Unicode}
use homelab_api.Base.Result.{ok}
use homelab_api.Base.Loop.{next}
use homelab_api.Base.Loop.Selection.{
  filter-append, Selects, Selects-guard, Selects-or_warn, for_each_select,
}
use homelab_api.Adapters.Registry.{BackendEntry}
use homelab_api.Adapters.Listing.{is_unavailable}
use homelab_api.Adapters.UniFi.{UniFiDevice}
use homelab_api.Network.Service.{UniFiBackend, Service}
use homelab_api.Network.DevicePorts.{Strconv}
use homelab_api.Network.Ports.Filter.{Matches, matches_filter_iff}
use homelab_api.Network.Ports.{
  NetworkPort, ListNetworkPortsParams, matches_filter, is_switch_or_gateway, device_loop,
  ports_round, list_ports,
}

abbrev pub no_filter : ListNetworkPortsParams
no_filter = record { device_id = none; state = none; mode = none; vlan_id = none }

matches_filter-no_filter : (np : NetworkPort) → matches_filter no_filter np ≡ true
unfolding matches_filter
matches_filter-no_filter np = refl

filter-all : {A : Type 0} (p : A → Bool) (xs : List A) → ((x : A) → p x ≡ true) → filter p xs ≡ xs
filter-all p [] h = refl
filter-all p (x ∷ xs) h = rw (h x) (ap (λ (l : List _). x ∷ l) (filter-all p xs h))

module _ ⦃u : Unicode⦄ ⦃strconv : Strconv⦄ (params : ListNetworkPortsParams) where
  device_loop-filter :
      (ports : UniFiDevice → List NetworkPort) (ds : List UniFiDevice)
      → device_loop params ports ds
        ≡ filter (matches_filter params) (device_loop no_filter ports ds)
  unfolding device_loop
  device_loop-filter ports [] = refl
  device_loop-filter ports (d ∷ ds) =
      one_device (not (is_switch_or_gateway d.type)) (ports d) _ _ (device_loop-filter ports ds)
    where
      one_device :
          (skipped : Bool) (mine all some_ports : List NetworkPort)
          → some_ports ≡ filter (matches_filter params) all
          → (if skipped then some_ports else filter (matches_filter params) mine ++ some_ports)
            ≡ filter
                (matches_filter params)
                (if skipped then all else filter (matches_filter no_filter) mine ++ all)
      one_device true mine all some_ports e = e
      one_device false mine all some_ports e =
          rw
            (
              filter-all (matches_filter no_filter) mine matches_filter-no_filter,
              filter-append (matches_filter params) mine all,
              e,
            )
            refl

  Selects-ports_round :
      (s : Service) (entry : BackendEntry UniFiBackend)
      → Selects (matches_filter params) (ports_round s no_filter entry) (ports_round s params entry)
  unfolding ports_round
  Selects-ports_round s entry = Selects-guard _ (is_unavailable s.monitor entry.name) _ _ (
      Selects-or_warn _ _ _ entry.backend.get_devices _ _ λ devices.
        Selects-or_warn _ _ _ entry.backend.get_clients _ _ λ clients.
          Selects-or_warn _ _ _ entry.backend.get_network_conf _ _
            λ confs. ap (λ (l : List NetworkPort). next l []) (device_loop-filter _ devices))

  -- ListPorts without parameters returns a list, whatever the controllers answer, and with parameters
  -- exactly those of its ports that match them, in the same order: a port matches if its device,
  -- state and mode are the wanted ones and it carries the wanted VLAN, each if it is given.
  pub list_ports-Matches :
      (s : Service)
      → (all : List NetworkPort) × ((list_ports s no_filter).result ≡ ok all)
        × ((kept : NetworkPort → Bool) × ((np : NetworkPort) → (kept np ≡ true) ↔ Matches params np)
            × ((list_ports s params).result ≡ ok (filter kept all)))
  unfolding list_ports
  list_ports-Matches s =
      let (all, listed, selected) =
        for_each_select (matches_filter params) (ports_round s no_filter) (ports_round s params)
          s.backends (Selects-ports_round s) in
      (all, listed, (matches_filter params, matches_filter_iff params, selected))
