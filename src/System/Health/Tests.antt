-- ===== src/System/Health/Tests.antt =====
-- A NAS with a degraded volume, and a controller that does not answer.
use homelab_api.Base.{lit, ◌==◌, true, none, [], ◌∷◌, ◌≡◌, refl}
use homelab_api.Base.Result.{plain, ok, err}
use homelab_api.Adapters.Synology.{DsmStorageVolume}
use homelab_api.System.Health.{
  Service, unhealthy, worst_status, map_volume_status, tally_volume, tally_volumes, tally_as,
  storage_health, containers_health,
}
use homelab_api.System.Health.Aggregate.{
  report, fail, add_network, add_verdict, when, add_controllers, add_device, add_devices,
  get_system_health,
}
use homelab_api.System.Health.Laws.{IsWorst, get_system_health-IsWorst}

abbrev volume : DsmStorageVolume
volume = record {
  id = lit "volume1";
  vol_path = lit "/volume1";
  status = lit "degraded";
  fs_type = lit "btrfs";
  raid_type = lit "shr";
  pool_path = lit "pool1";
  size_total = lit "2048";
  size_used = lit "17";
}

abbrev service : Service
service = record {
  dsm_backends =
      record {
        name = lit "nas";
        backend = record {
          get_storage_volumes =
              ok (record { volumes = volume ∷ []; disks = []; storage_pools = [] });
          list_containers = ok [];
          docker_enabled = true;
        };
      }
      ∷ [];
  unifi_backends =
      record {
        name = lit "home";
        backend = record {
          get_health = err (record { message = plain (lit "timeout") ∷ []; not_found = true });
        };
      }
      ∷ [];
  monitor = none;
}

service_unhealthy : (get_system_health service 7).status ≡ unhealthy
unfolding get_system_health add_controllers add_devices add_device add_network add_verdict when fail
    report worst_status storage_health containers_health tally_volumes tally_volume tally_as
    map_volume_status lit ◌==◌
service_unhealthy = refl

get_system_health-IsWorst_example :
    IsWorst (get_system_health service 7).components (get_system_health service 7).status
get_system_health-IsWorst_example = get_system_health-IsWorst service 7
