-- ===== src/Adapters/Synology.antt =====
-- internal/adapters/synology.go: what the DSM's API returns, decoded. A time stays the text that
-- the DSM sends.
pub mod System
pub mod Backups
use homelab_api.Base.{Text, ◌==◌, Bool, not, if◌then◌else◌, List, []}
use homelab_api.Base.Int.{ℤ}
use homelab_api.Base.Float.{Float64}
use homelab_api.Base.Dict.{Dict}

pub record DsmContainerState : Type 0 where
  pub dead : Bool
  pub paused : Bool
  pub restarting : Bool
  pub running : Bool
  pub status : Text
  pub started_at : Text
  pub finished_at : Text
  pub exit_code : ℤ
  pub oom_killed : Bool

pub record DsmContainer : Type 0 where
  pub id : Text
  pub name : Text
  pub image : Text
  pub status : Text
  pub state : DsmContainerState

pub record DsmEnvVariable : Type 0 where
  pub key : Text
  pub value : Text

-- DSMNetwork: a network in a container's profile.
pub record DsmNetwork : Type 0 where
  pub name : Text
  pub driver : Text

pub record DsmProfilePortBinding : Type 0 where
  pub container_port : ℤ
  pub host_port : ℤ
  pub type : Text

pub record DsmVolumeBinding : Type 0 where
  pub host_absolute_path : Text
  pub host_volume_path : Text
  pub mount_path : Text
  pub type : Text

unfoldable pub host_path : DsmVolumeBinding → Text
host_path v = if not (v.host_absolute_path == []) then v.host_absolute_path else v.host_volume_path

pub record DsmContainerDetailProfile : Type 0 where
  pub name : Text
  pub image : Text
  pub env_variables : List DsmEnvVariable
  pub networks : List DsmNetwork
  pub port_bindings : List DsmProfilePortBinding
  pub volume_bindings : List DsmVolumeBinding
  pub privileged : Bool
  pub memory_limit : ℤ

-- The fields of DSMContainerDetail that the program reads, with those of its Config and the name
-- of its HostConfig.RestartPolicy.
pub record DsmContainerDetail : Type 0 where
  pub restart_count : ℤ
  pub state : DsmContainerState
  pub cmd : List Text
  pub entrypoint : List Text
  pub labels : Dict Text
  pub restart_policy_name : Text

pub record DsmContainerDetailResponse : Type 0 where
  pub details : DsmContainerDetail
  pub profile : DsmContainerDetailProfile

pub record DsmContainerResource : Type 0 where
  pub name : Text
  pub cpu : Float64
  pub memory : ℤ
  pub memory_percent : Float64

pub record DsmDockerNetworkItem : Type 0 where
  pub id : Text
  pub name : Text
  pub driver : Text
  pub gateway : Text
  pub subnet : Text
  pub ip_range : Text
  pub containers : List Text

pub record DsmDockerImageItem : Type 0 where
  pub id : Text
  pub repository : Text
  pub tags : List Text
  pub size : ℤ
  pub virtual_size : ℤ
  pub created : ℤ
  pub description : Text

-- The capacity fields of DSMStorageVolumeSize stand in the volume.
pub record DsmStorageVolume : Type 0 where
  pub id : Text
  pub vol_path : Text
  pub status : Text
  pub fs_type : Text
  pub raid_type : Text
  pub pool_path : Text
  pub size_total : Text
  pub size_used : Text

pub record DsmStorageDisk : Type 0 where
  pub id : Text
  pub model : Text
  pub size_total : Text
  pub status : Text
  pub temp : ℤ

pub record DsmStoragePool : Type 0 where
  pub id : Text
  pub disks : List Text
  pub raid_type : Text
  pub status : Text

pub record DsmStorageVolumeResponse : Type 0 where
  pub volumes : List DsmStorageVolume
  pub disks : List DsmStorageDisk
  pub storage_pools : List DsmStoragePool
