-- ===== src/Adapters/Synology/System.antt =====
-- internal/adapters/synology.go: the DSM's system information and utilization, decoded.
use homelab_api.Base.{Text, List}
use homelab_api.Base.Int.{ℤ}

pub record DsmSystemInfoResponse : Type 0 where
  pub firmware_ver : Text
  pub model : Text
  pub ram_size : ℤ
  pub up_time : Text

pub record DsmCpuUsage : Type 0 where
  pub user_load : ℤ
  pub system_load : ℤ
  pub other_load : ℤ

-- In kilobytes.
pub record DsmMemoryUsage : Type 0 where
  pub memory_size : ℤ
  pub total_real : ℤ
  pub avail_real : ℤ
  pub real_usage : ℤ
  pub total_swap : ℤ
  pub avail_swap : ℤ

pub record DsmNetworkStat : Type 0 where
  pub device : Text
  pub rx : ℤ
  pub tx : ℤ

pub record DsmDiskStat : Type 0 where
  pub device : Text
  pub read_access : ℤ
  pub write_access : ℤ

pub record DsmDiskStats : Type 0 where
  pub disk : List DsmDiskStat

pub record DsmSystemUtilizationResponse : Type 0 where
  pub cpu : DsmCpuUsage
  pub memory : DsmMemoryUsage
  pub network : List DsmNetworkStat
  pub disk : DsmDiskStats
