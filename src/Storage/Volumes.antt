-- ===== src/Storage/Volumes.antt =====
-- internal/storage/volumes_service.go: the volumes and their disks, with the part of the service's
-- state (internal/storage/service.go) that they use. A warning is also logged about a status that
-- the service does not know; it changes nothing of an answer and is left out.
pub mod Laws
mod Tests
use homelab_api.Base.{
  Text, ◌==◌, lit, Bool, true, if◌then◌else◌, Option, some, none, List, [], ◌∷◌, ◌++◌, map, find,
}
use homelab_api.Base.Int.{ℤ}
use homelab_api.Base.Int.Parse.{parse_int}
use homelab_api.Base.Dict.{Dict, lookup, index_by}
use homelab_api.Base.Result.{plain, quoted, Result, ok, err, ◌>>=◌, wrapping, wrap, err_not_found}
use homelab_api.Base.Loop.{Round, next, skip, Logged, for_each}
use homelab_api.ApiErrors.{parse_composite_id}
use homelab_api.Adapters.Registry.{Registry, BackendEntry, new_registry}
use homelab_api.Adapters.Registry
use homelab_api.Adapters.Listing.{is_unavailable, is_filtered_out, or_fail}
use homelab_api.Adapters.Synology.{
  DsmStorageVolume, DsmStorageDisk, DsmStoragePool, DsmStorageVolumeResponse,
}

-- What GetStorageVolumes answers while a request is served.
pub record StorageBackend : Type 0 where
  pub get_storage_volumes : Result DsmStorageVolumeResponse

pub record Service : Type 0 where
  pub storage_backends : Registry StorageBackend
  pub monitor : Option (Text → Bool)

pub new_service : Dict StorageBackend → Option (Text → Bool) → Service
new_service storage_backends monitor = record {
  storage_backends = new_registry storage_backends;
  monitor = monitor;
}

pub data VolumeStatus : Type 0 where
  normal degraded repairing crashed : VolumeStatus

pub data DiskStatus : Type 0 where
  disk_normal disk_warning disk_failing disk_critical : DiskStatus

pub record Volume : Type 0 where
  pub id : Text
  pub device : Text
  pub name : Text
  pub file_system : Text
  pub raid_type : Text
  pub status : VolumeStatus
  pub total_bytes : ℤ
  pub used_bytes : ℤ

pub record VolumeDisk : Type 0 where
  pub id : Text
  pub model : Text
  pub status : DiskStatus
  pub temperature_celsius : ℤ
  pub total_bytes : ℤ

pub record VolumeDetail : Type 0 where
  pub device : Text
  pub disks : List VolumeDisk
  pub file_system : Text
  pub id : Text
  pub name : Text
  pub raid_type : Text
  pub status : VolumeStatus
  pub total_bytes : ℤ
  pub used_bytes : ℤ
  pub mount_path : Text
  pub pool_status : VolumeStatus

pub find_storage_backend : Service → Text → Result StorageBackend
find_storage_backend s device = elim (Registry.find s.storage_backends device) [
  | some backend ↦ ok backend
  | none ↦ err (wrap (plain (lit "unknown device ") ∷ quoted device ∷ []) err_not_found)
]

pub parse_volume_id : Text → Result (Text × Text)
parse_volume_id id = parse_composite_id id (lit "volume ID") (lit "device.name")

-- fmt.Sprintf("%s.%s", device, v.ID)
pub volume_id : Text → Text → Text
volume_id device name = device ++ b'.' ∷ name

map_volume_status : Text → VolumeStatus
map_volume_status status =
    if status == lit "normal"
    then normal
    else if status == lit "degraded"
    then degraded
    else if status == lit "repairing"
    then repairing
    else if status == lit "crashed"
    then crashed
    else degraded

map_disk_status : Text → DiskStatus
map_disk_status status =
    if status == lit "normal"
    then disk_normal
    else if status == lit "warning"
    then disk_warning
    else if status == lit "failing"
    then disk_failing
    else if status == lit "critical"
    then disk_critical
    else disk_warning

pub map_volume : Text → DsmStorageVolume → Volume
unfolding map_volume_status volume_id
map_volume device v = record {
  id = volume_id device v.id;
  device = device;
  name = v.id;
  file_system = v.fs_type;
  raid_type = v.raid_type;
  status = map_volume_status v.status;
  total_bytes = parse_int v.size_total;
  used_bytes = parse_int v.size_used;
}

-- The disks of a pool, without those that the device does not report.
map_disks : List Text → Dict DsmStorageDisk → List VolumeDisk
unfolding map_disk_status
map_disks [] disks_by_id = []
map_disks (disk_id ∷ ids) disks_by_id =
    let rest = map_disks ids disks_by_id in
    elim (lookup disk_id disks_by_id) [
      | none ↦ rest
      | some d ↦
          record {
            id = d.id;
            model = d.model;
            status = map_disk_status d.status;
            temperature_celsius = d.temp;
            total_bytes = parse_int d.size_total;
          }
          ∷ rest
    ]

-- The zero values of a volume and a pool that a map does not hold.
abbrev or_no_volume : Option DsmStorageVolume → DsmStorageVolume
or_no_volume (some v) = v
or_no_volume none = record {
  id = [];
  vol_path = [];
  status = [];
  fs_type = [];
  raid_type = [];
  pool_path = [];
  size_total = [];
  size_used = [];
}

abbrev or_no_pool : Option DsmStoragePool → DsmStoragePool
or_no_pool (some p) = p
or_no_pool none = record { id = []; disks = []; raid_type = []; status = [] }

build_volume_detail : DsmStorageVolumeResponse → Volume → VolumeDetail
unfolding map_disks map_volume_status
build_volume_detail resp vol =
    let raw =
      or_no_volume (lookup vol.name (index_by (λ (v : DsmStorageVolume). v.id) resp.volumes)) in
    let pool =
      or_no_pool
        (lookup raw.pool_path (index_by (λ (p : DsmStoragePool). p.id) resp.storage_pools)) in
    record {
      device = vol.device;
      disks = map_disks pool.disks (index_by (λ (d : DsmStorageDisk). d.id) resp.disks);
      file_system = vol.file_system;
      id = vol.id;
      name = vol.name;
      raid_type = vol.raid_type;
      status = vol.status;
      total_bytes = vol.total_bytes;
      used_bytes = vol.used_bytes;
      mount_path = raw.vol_path;
      pool_status = map_volume_status pool.status;
    }

is_volume : Text → Volume → Bool
is_volume name vol = vol.name == name

module _ (s : Service) where
  abbrev pub is_skipped : Option Text → BackendEntry StorageBackend → Bool
  is_skipped device entry =
      if is_filtered_out device entry.name then true else is_unavailable s.monitor entry.name

  volumes_round : Option Text → BackendEntry StorageBackend → Round Volume
  volumes_round device entry =
      if is_skipped device entry
      then skip
      else or_fail device
          (plain (lit "list storage volumes") ∷ plain (lit " from ") ∷ plain entry.name ∷ [])
          (lit "skipping backend on list storage volumes error") entry.name
          entry.backend.get_storage_volumes
          (λ resp. next (map (map_volume entry.name) resp.volumes) [])

  pub list_storage_volumes : Option Text → Logged (List Volume)
  unfolding volumes_round
  list_storage_volumes device = for_each (volumes_round device) s.storage_backends

  pub get_storage_volume : Text → Result VolumeDetail
  unfolding is_volume build_volume_detail
  get_storage_volume id = do
    (device, name) ← parse_volume_id id
    backend ← find_storage_backend s device
    resp ← wrapping (plain (lit "get storage volume") ∷ []) backend.get_storage_volumes
    elim (find (is_volume name) (map (map_volume device) resp.volumes)) [
      | some vol ↦ ok (build_volume_detail resp vol)
      | none ↦ err (wrap (plain (lit "volume not found: ") ∷ plain id ∷ []) err_not_found)
    ]
