-- ===== src/Network/Devices/Laws.antt =====
-- internal/network/devices_service.go: the devices that are listed can be looked up.
use homelab_api.Base.{
  Text, ==_refl, ==_sound, Option, some, none, List, [], ◌≡◌, ◌≢◌, sym, ap, ◌∙◌, In, In-map_inv,
  find, find_of_In, true, lit,
}
use homelab_api.Base.Strings.Lower.{Unicode}
use homelab_api.Base.Result.{ok, err}
use homelab_api.Base.Loop.{for_each_inv, Appended, Appended-next, Appended-guard, Appended-or_warn}
use homelab_api.Adapters.Registry.{BackendEntry}
use homelab_api.Adapters.Listing.{is_unavailable}
use homelab_api.Adapters.UniFi.{UniFiDevice, UniFiSta, UniFiNetworkConf}
use homelab_api.Network.Kebab.{to_kebab}
use homelab_api.Network.Service.{
  UniFiBackend, Service, composite_id, find_backend, parse_id, missing,
}
use homelab_api.Network.Service.Laws.{IsRoutable, find_backend-In, parse_id-composite_id}
use homelab_api.Network.DevicePorts.{Strconv}
use homelab_api.Network.DeviceDetails.{build_device_detail, detail_base}
use homelab_api.Network.Devices.{
  NetworkDevice, device_to_list, is_device, devices_round, list_devices, get_device,
}

-- What a controller answers that GetDevice asks besides the devices.
pub record Answers (b : UniFiBackend) : Type 0 where
  pub clients : List UniFiSta
  pub got_clients : b.get_clients ≡ ok clients
  pub confs : List UniFiNetworkConf
  pub got_confs : b.get_network_conf ≡ ok confs

module _ ⦃u : Unicode⦄ ⦃strconv : Strconv⦄ (s : Service) where
  -- Where an item of the list comes from.
  pub record Origin (w : NetworkDevice) : Type 0 where
    pub entry : BackendEntry UniFiBackend
    pub listed : In entry s.backends
    pub devices : List UniFiDevice
    pub got : entry.backend.get_devices ≡ ok devices
    pub device : UniFiDevice
    pub here : In device devices
    pub built : device_to_list entry.name device ≡ w

  round-Origin :
      (entry : BackendEntry UniFiBackend) (w : NetworkDevice)
      → In entry s.backends
      → Appended (devices_round s entry) w
      → Origin w
  unfolding devices_round
  round-Origin entry w i added =
      let (reachable, a) = Appended-guard w (is_unavailable s.monitor entry.name) _ added in
      let (devices, got, b) = Appended-or_warn w _ _ entry.backend.get_devices _ a in
      let (device, here, built) =
        In-map_inv (device_to_list entry.name) w devices (Appended-next w b) in
      record {
        entry = entry;
        listed = i;
        devices = devices;
        got = got;
        device = device;
        here = here;
        built = built;
      }

  get_device_found :
      (id controller suffix : Text) (backend : UniFiBackend) (devices : List UniFiDevice)
      (d : UniFiDevice) (a : Answers backend)
      → parse_id id ≡ ok (controller, suffix)
      → find_backend s controller ≡ ok backend
      → backend.get_devices ≡ ok devices
      → find (is_device suffix) devices ≡ some d
      → get_device s id ≡ ok (build_device_detail controller d devices a.clients a.confs)
  unfolding get_device
  get_device_found id controller suffix backend devices d a p b c f =
      rw (p, b, c, a.got_clients, a.got_confs)
        (ap
          (λ (o : Option UniFiDevice). elim o [
            | some x ↦ ok (build_device_detail controller x devices a.clients a.confs)
            | none ↦ err (missing (lit "Network device not found: ") id)
          ])
          f)

  is_device_self : (d : UniFiDevice) → is_device (to_kebab d.name) d ≡ true
  unfolding is_device
  is_device_self d = ==_refl (to_kebab d.name)

  is_device-name : (k : Text) (d : UniFiDevice) → is_device k d ≡ true → to_kebab d.name ≡ k
  unfolding is_device
  is_device-name k d h = ==_sound (to_kebab d.name) k h

  -- What GetDevice returns for a listed device: the detail of a device of its controller that has
  -- the same name in kebab case.
  abbrev pub IsFound : (w : NetworkDevice) → (o : Origin w) → Answers o.entry.backend → Type 0
  IsFound w o a =
      (d : UniFiDevice) × In d o.devices
      × (to_kebab d.name ≡ to_kebab w.name)
      × (get_device s w.id ≡ ok (build_device_detail o.entry.name d o.devices a.clients a.confs))
      × ((detail_base o.entry.name d).id ≡ w.id)

  get_device-Origin :
      (w : NetworkDevice)
      → IsRoutable s
      → to_kebab w.name ≢ []
      → (o : Origin w) (a : Answers o.entry.backend) → IsFound w o a
  unfolding device_to_list detail_base
  get_device-Origin w ready named o a =
      let name : o.device.name ≡ w.name = ap (λ (x : NetworkDevice). x.name) o.built in
      let id : composite_id o.entry.name (to_kebab o.device.name) ≡ w.id =
        ap (λ (x : NetworkDevice). x.id) o.built in
      let (d, found, at, t) =
        find_of_In (is_device (to_kebab o.device.name)) o.device o.devices o.here
          (is_device_self o.device) in
      let same = is_device-name (to_kebab o.device.name) d t in
      (
        d,
        at,
        same ∙ ap to_kebab name,
        get_device_found w.id o.entry.name (to_kebab o.device.name) o.entry.backend o.devices d a
            (ap parse_id (sym id)
              ∙ parse_id-composite_id s ready o.entry o.listed (to_kebab o.device.name)
                  (rw name named))
            (find_backend-In s ready o.entry o.listed) o.got found,
        ap (composite_id o.entry.name) same ∙ id,
      )

  -- Every device of the list is found under its ID, if the controllers answer for their clients and
  -- networks, their names differ, hold no dot and are not empty, and the device's own name is not
  -- empty in kebab case: the detail is of a device of the same controller with the same name in
  -- kebab case.
  pub get_device-list_devices :
      (items : List NetworkDevice) (w : NetworkDevice)
      → (list_devices s).result ≡ ok items
      → In w items
      → IsRoutable s
      → to_kebab w.name ≢ []
      → ((entry : BackendEntry UniFiBackend) → In entry s.backends → Answers entry.backend)
      → (o : Origin w) × ((a : Answers o.entry.backend) × IsFound w o a)
  unfolding list_devices
  get_device-list_devices items w h i ready named answers =
      let (entry, j, added) = for_each_inv (devices_round s) s.backends items w h i in
      let o = round-Origin entry w j added in
      let a = answers o.entry o.listed in (o, (a, get_device-Origin w ready named o a))
