-- ===== src/Network/Devices.antt =====
-- internal/network/devices_service.go: ListDevices and GetDevice.
pub mod Laws
mod Tests
use homelab_api.Base.{
  Text, lit, ◌==◌, Bool, not, if◌then◌else◌, some, none, List, [], ◌∷◌, ◌++◌, map, find,
}
use homelab_api.Base.Strings.Lower.{Unicode}
use homelab_api.Base.Result.{plain, Result, ok, err, ◌>>=◌, wrapping}
use homelab_api.Base.Loop.{Round, next, skip, Logged, for_each, or_warn}
use homelab_api.Adapters.Registry.{BackendEntry}
use homelab_api.Adapters.Listing.{is_unavailable}
use homelab_api.Adapters.UniFi.{UniFiDevice}
use homelab_api.Network.Kebab.{to_kebab, normalize_mac}
use homelab_api.Network.Kinds.{DeviceType, DeviceStatus, map_device_type, map_device_status}
use homelab_api.Network.Service.{
  UniFiBackend, Service, find_backend, parse_id, composite_id, missing,
}
use homelab_api.Network.DevicePorts.{Strconv}
use homelab_api.Network.DeviceDetails.{NetworkDeviceDetail, build_device_detail}

pub record NetworkDevice : Type 0 where
  pub id : Text
  pub uri : Text
  pub name : Text
  pub mac : Text
  pub ip : Text
  pub type : DeviceType
  pub status : DeviceStatus

module _ ⦃u : Unicode⦄ where
  unfoldable pub device_to_list : Text → UniFiDevice → NetworkDevice
  device_to_list controller d =
      let id = composite_id controller (to_kebab d.name) in
      record {
        id = id;
        uri = lit "/network/devices/" ++ id;
        name = d.name;
        mac = normalize_mac d.mac;
        ip = d.ip;
        type = map_device_type d.type;
        status = map_device_status d.state;
      }

  module _ ⦃strconv : Strconv⦄ where
    -- The test of GetDevice's loop.
    unfoldable pub is_device : Text → UniFiDevice → Bool
    is_device suffix d = to_kebab d.name == suffix

    module _ (s : Service) where
      unfoldable pub devices_round : BackendEntry UniFiBackend → Round NetworkDevice
      devices_round entry =
          if is_unavailable s.monitor entry.name
          then skip
          else or_warn (lit "skipping backend on list devices error") entry.name
              entry.backend.get_devices (λ raw. next (map (device_to_list entry.name) raw) [])

      unfoldable pub list_devices : Logged (List NetworkDevice)
      list_devices = for_each devices_round s.backends

      unfoldable pub get_device : Text → Result NetworkDeviceDetail
      get_device id = do
        (controller, suffix) ← parse_id id
        backend ← find_backend s controller
        devices ← wrapping (plain (lit "get unifi devices") ∷ []) backend.get_devices
        clients ← wrapping (plain (lit "get unifi clients") ∷ []) backend.get_clients
        confs ← wrapping (plain (lit "get unifi network conf") ∷ []) backend.get_network_conf
        elim (find (is_device suffix) devices) [
          | some d ↦ ok (build_device_detail controller d devices clients confs)
          | none ↦ err (missing (lit "Network device not found: ") id)
        ]
