-- ===== src/Network/Clients/Laws.antt =====
-- The offline clients that are listed can be looked up.
use homelab_api.Base.{
  Text, lit, ◌==◌, ==_refl, ==_sound, some, none, List, [], ◌∷◌, ◌++◌, ◌≡◌, ◌≢◌, refl, sym, ap, ◌∙◌,
  In, In-map_inv, find, find-In, find_of_In, Option-cases, inl, inr,
}
use homelab_api.Base.Dict.{lookup}
use homelab_api.Base.Strings.Lower.{Unicode}
use homelab_api.Base.Result.{ok}
use homelab_api.Base.Loop.{for_each_inv, Appended-next, Appended-guard, Appended-or_warn}
use homelab_api.Adapters.Registry.{BackendEntry}
use homelab_api.Adapters.Listing.{is_unavailable}
use homelab_api.Adapters.UniFi.{UniFiDevice, UniFiSta, UniFiClientV2}
use homelab_api.Network.Names.{client_suffix, client_suffix_v2}
use homelab_api.Network.Refs.{build_mac_to_device}
use homelab_api.Network.Service.{
  UniFiBackend, Service, or_zero, composite_id, find_backend, parse_id,
}
use homelab_api.Network.Service.Laws.{IsRoutable, find_backend-In, parse_id-composite_id}
use homelab_api.Network.Clients.{
  NetworkClient, NetworkClientDetail, client_to_list_v2, client_to_detail, client_to_detail_v2,
  fetch_clients, clients_round, list_clients, has_suffix, has_suffix_v2, find_offline,
  offline_detail, active_or_offline, get_client,
}

-- What GetClient needs of the controller besides the offline history.
pub record Answers (backend : UniFiBackend) : Type 0 where
  pub devices : List UniFiDevice
  pub got_devices : backend.get_devices ≡ ok devices
  pub clients : List UniFiSta
  pub got_clients : backend.get_clients ≡ ok clients

not_empty : (s t : Text) → s ++ lit "-" ++ t ≢ []
unfolding lit
not_empty [] t e = cc
not_empty (c ∷ s) t e = cc

module _ ⦃u : Unicode⦄ (s : Service) where
  -- Where an item of the list of offline clients comes from.
  pub record Origin (w : NetworkClient) : Type 0 where
    pub entry : BackendEntry UniFiBackend
    pub listed : In entry s.backends
    pub raw : List UniFiClientV2
    pub got :
        entry.backend.get_offline_clients (or_zero (lookup entry.name s.history_days)) ≡ ok raw
    pub item : UniFiClientV2
    pub here : In item raw
    pub built : client_to_list_v2 entry.name item ≡ w

  fetch_clients_offline :
      (entry : BackendEntry UniFiBackend)
      → fetch_clients (lit "offline") (or_zero (lookup entry.name s.history_days)) entry.backend
        ≡ entry.backend.get_offline_clients (or_zero (lookup entry.name s.history_days))
  unfolding fetch_clients lit ◌==◌
  fetch_clients_offline entry = refl

  list_clients-Origin :
      (items : List NetworkClient) (w : NetworkClient)
      → (list_clients s (lit "offline")).result ≡ ok items
      → In w items
      → Origin w
  unfolding list_clients clients_round
  list_clients-Origin items w h i =
      let (entry, j, added) =
        for_each_inv (clients_round s (lit "offline")) s.backends items w h i in
      let (_, a) = Appended-guard w (is_unavailable s.monitor entry.name) _ added in
      let (raw, got, b) =
        Appended-or_warn w _ _
          (fetch_clients (lit "offline") (or_zero (lookup entry.name s.history_days)) entry.backend)
          _ a in
      let (item, here, built) =
        In-map_inv (client_to_list_v2 entry.name) w raw (Appended-next w b) in
      record {
        entry = entry;
        listed = j;
        raw = raw;
        got = sym (fetch_clients_offline entry) ∙ got;
        item = item;
        here = here;
        built = built;
      }

  -- Some client is found under the ID, and its detail has that ID.
  abbrev pub IsFound : Text → Type 0
  IsFound id = (d : NetworkClientDetail) × (get_client s id ≡ ok d) × (d.id ≡ id)

  module _ (id controller suffix : Text) (backend : UniFiBackend) (answers : Answers backend)
      (parsed : parse_id id ≡ ok (controller, suffix))
      (found : find_backend s controller ≡ ok backend)
      (spelled : composite_id controller suffix ≡ id) where
    get_client-search :
        get_client s id
        ≡ active_or_offline s id controller suffix backend
            (build_mac_to_device answers.devices)
            (find (has_suffix suffix) answers.clients)
    unfolding get_client
    get_client-search = rw (parsed, found, answers.got_devices, answers.got_clients) refl

    get_client-active :
        (sta : UniFiSta) → find (has_suffix suffix) answers.clients ≡ some sta → IsFound id
    unfolding active_or_offline client_to_detail has_suffix
    get_client-active sta f =
        let mac_to_device = build_mac_to_device answers.devices in
        let (_, t) = find-In (has_suffix suffix) answers.clients sta f in
        (
          client_to_detail controller mac_to_device sta,
          get_client-search ∙ ap (active_or_offline s id controller suffix backend mac_to_device) f,
          ap (composite_id controller) (==_sound (client_suffix sta) suffix t) ∙ spelled,
        )

    find_offline-search :
        (raw : List UniFiClientV2)
        → backend.get_offline_clients (or_zero (lookup controller s.history_days)) ≡ ok raw
        → find_offline s id controller suffix backend (build_mac_to_device answers.devices)
          ≡ offline_detail id controller
              (build_mac_to_device answers.devices)
              (find (has_suffix_v2 suffix) raw)
    unfolding find_offline
    find_offline-search raw got = rw got refl

    get_client-offline :
        (raw : List UniFiClientV2) (c : UniFiClientV2)
        → find (has_suffix suffix) answers.clients ≡ none
        → backend.get_offline_clients (or_zero (lookup controller s.history_days)) ≡ ok raw
        → find (has_suffix_v2 suffix) raw ≡ some c
        → IsFound id
    unfolding active_or_offline offline_detail client_to_detail_v2 has_suffix_v2
    get_client-offline raw c n got f =
        let mac_to_device = build_mac_to_device answers.devices in
        let (_, t) = find-In (has_suffix_v2 suffix) raw c f in
        (
          client_to_detail_v2 controller mac_to_device c,
          get_client-search
              ∙ ap (active_or_offline s id controller suffix backend mac_to_device) n
              ∙ find_offline-search raw got
              ∙ ap (offline_detail id controller mac_to_device) f,
          ap (composite_id controller) (==_sound (client_suffix_v2 c) suffix t) ∙ spelled,
        )

  get_client-Origin :
      (w : NetworkClient) → IsRoutable s → (o : Origin w) → Answers o.entry.backend → IsFound w.id
  unfolding client_to_list_v2 has_suffix_v2 client_suffix_v2
  get_client-Origin w ready o answers =
      let suffix = client_suffix_v2 o.item in
      let spelled : composite_id o.entry.name suffix ≡ w.id =
        ap (λ (x : NetworkClient). x.id) o.built in
      let parsed : parse_id w.id ≡ ok (o.entry.name, suffix) =
        ap parse_id (sym spelled)
        ∙ parse_id-composite_id s ready o.entry o.listed suffix (not_empty _ _) in
      let found = find_backend-In s ready o.entry o.listed in
      let (c, f, _, _) = find_of_In (has_suffix_v2 suffix) o.item o.raw o.here (==_refl suffix) in
      elim (Option-cases (find (has_suffix suffix) answers.clients)) [
        | inr (sta, active) ↦
            get_client-active w.id o.entry.name suffix o.entry.backend answers parsed found spelled
              sta active
        | inl none_active ↦
            get_client-offline w.id o.entry.name suffix o.entry.backend answers parsed found spelled
              o.raw c none_active o.got f
      ]

  -- Every client that is listed as offline is found under its ID, if the controllers answer for
  -- their devices and their active clients, and the controllers' names differ, hold no dot and are
  -- not empty.
  pub get_client-list_clients :
      (items : List NetworkClient) (w : NetworkClient)
      → (list_clients s (lit "offline")).result ≡ ok items
      → In w items
      → IsRoutable s
      → ((entry : BackendEntry UniFiBackend) → In entry s.backends → Answers entry.backend)
      → IsFound w.id
  get_client-list_clients items w h i ready answers =
      let o = list_clients-Origin items w h i in
      get_client-Origin w ready o (answers o.entry o.listed)
