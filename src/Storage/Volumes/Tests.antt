-- ===== src/Storage/Volumes/Tests.antt =====
-- A device with one volume.
use homelab_api.Base.{lit, ◌==◌, none, [], ◌∷◌, ◌≡◌, refl, inl, arith}
use homelab_api.Base.Int.{pos}
use homelab_api.Base.Int.Parse.{parse_int, digits_value, is_digit}
use homelab_api.Base.Result.{ok}
use homelab_api.Base.Loop.{for_each}
use homelab_api.Adapters.Synology.{DsmStorageVolumeResponse}
use homelab_api.Storage.Volumes.{Service, Volume, normal, list_storage_volumes, map_volume}
use homelab_api.Storage.Volumes.Laws.{
  IsRoutable, Origin, IsFound, get_storage_volume-list_storage_volumes,
}

abbrev response : DsmStorageVolumeResponse
response = record {
  volumes =
      record {
        id = lit "volume1";
        vol_path = lit "/volume1";
        status = lit "normal";
        fs_type = lit "btrfs";
        raid_type = lit "shr";
        pool_path = lit "pool1";
        size_total = lit "2048";
        size_used = lit "17";
      }
      ∷ [];
  disks = [];
  storage_pools = [];
}

abbrev one_device : Service
one_device = record {
  storage_backends =
      record { name = lit "nas"; backend = record { get_storage_volumes = ok response } } ∷ [];
  monitor = none;
}

abbrev listed : Volume
listed = record {
  id = lit "nas.volume1";
  device = lit "nas";
  name = lit "volume1";
  file_system = lit "btrfs";
  raid_type = lit "shr";
  status = normal;
  total_bytes = pos 2048;
  used_bytes = pos 17;
}

one_device_listed : (list_storage_volumes one_device none).result ≡ ok (listed ∷ [])
unfolding list_storage_volumes for_each ◌==◌ lit map_volume parse_int digits_value is_digit
one_device_listed = refl

one_device-IsRoutable : IsRoutable one_device
unfolding lit
one_device-IsRoutable = record {
  distinct = (tt, tt);
  plain_names = ((λ e. cc, (ground arith, (ground arith, (ground arith, tt)))), tt);
}

get_storage_volume-list_storage_volumes_example :
    (o : Origin one_device none listed) × IsFound one_device none listed o
unfolding lit
get_storage_volume-list_storage_volumes_example =
    get_storage_volume-list_storage_volumes one_device none (listed ∷ []) listed one_device_listed
      (inl refl) one_device-IsRoutable (λ e. cc)
