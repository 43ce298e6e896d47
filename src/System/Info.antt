-- ===== src/System/Info.antt =====
-- internal/system/info_service.go and internal/system/utilization_service.go, with the part of the
-- service's state that they use. `sampled_at` is the time of the answer.
pub mod Uptime
pub mod Laws
mod Tests
use homelab_api.Base.{
  ℕ, Text, lit, ◌==◌, Bool, not, if◌then◌else◌, Option, some, none, List, [], ◌∷◌, map, filter,
}
use homelab_api.Base.Int.{ℤ, pos, int_add, int_mul, negated, wrap_int64}
use homelab_api.Base.Int.Parse.{try_parse_int}
use homelab_api.Base.Strings.{split}
use homelab_api.Base.Result.{Part, plain, Result, ok, ◌>>=◌, wrapping}
use homelab_api.Adapters.Registry.{Registry, BackendEntry}
use homelab_api.Adapters.Listing.{is_unavailable, is_filtered_out}
use homelab_api.Adapters.Synology.System.{
  DsmSystemInfoResponse, DsmSystemUtilizationResponse, DsmNetworkStat, DsmDiskStat,
}

-- InfoDSMBackend and UtilizationDSMBackend.
pub record SystemBackend : Type 0 where
  pub get_system_info : Result DsmSystemInfoResponse
  pub get_system_utilization : Result DsmSystemUtilizationResponse

pub record Service : Type 0 where
  pub dsm_backends : Registry SystemBackend
  pub monitor : Option (Text → Bool)

pub record SystemInfo : Type 0 where
  pub device : Text
  pub model : Text
  pub firmware : Text
  pub ram_mb : ℤ
  pub uptime_seconds : ℤ

-- h*3600 + m*60 + sec on int64. Wrapping once, at the end, gives the same number.
unfoldable pub seconds : ℤ → ℤ → ℤ → ℤ
seconds h m sec = wrap_int64 (int_add (int_add (int_mul h (pos 3600)) (int_mul m (pos 60))) sec)

abbrev pub and_then : {A B : Type 0} → Option A → (A → Option B) → Option B
and_then none f = none
and_then (some a) f = f a

-- The error is only tested for: it is none.
unfoldable pub uptime_of : List Text → Option ℤ
uptime_of (h ∷ m ∷ sec ∷ []) = and_then (try_parse_int h) λ hours.
    and_then (try_parse_int m)
      λ minutes. and_then (try_parse_int sec) λ rest. some (seconds hours minutes rest)
uptime_of parts = none

unfoldable pub parse_uptime : Text → Option ℤ
parse_uptime s = uptime_of (split b':' s)

-- `if err != nil { uptimeSecs = 0 }`
abbrev or_zero : Option ℤ → ℤ
or_zero none = pos 0
or_zero (some n) = n

unfoldable pub system_info : Text → DsmSystemInfoResponse → SystemInfo
system_info device info = record {
  device = device;
  model = info.model;
  firmware = info.firmware_ver;
  ram_mb = info.ram_size;
  uptime_seconds = or_zero (parse_uptime info.up_time);
}

-- The loop that both list operations have: it stops at the first error.
unfoldable pub each_backend :
    {A : Type 0}
    → Option (Text → Bool)
    → Option Text
    → (BackendEntry SystemBackend → Result A)
    → Registry SystemBackend
    → Result (List A)
each_backend monitor device item [] = ok []
each_backend monitor device item (de ∷ des) =
    let rest = each_backend monitor device item des in
    if is_filtered_out device de.name
    then rest
    else if is_unavailable monitor de.name
    then rest
    else item de >>= λ a. rest >>= λ more. ok (a ∷ more)

-- "<what> from <name>"
abbrev from_backend : Text → Text → List Part
from_backend what name = plain what ∷ plain (lit " from ") ∷ plain name ∷ []

unfoldable pub info_item : BackendEntry SystemBackend → Result SystemInfo
info_item de =
    wrapping (from_backend (lit "get system info") de.name) de.backend.get_system_info >>= λ info.
    ok (system_info de.name info)

unfoldable pub list_system_info : Service → Option Text → Result (List SystemInfo)
list_system_info s device = each_backend s.monitor device info_item s.dsm_backends

pub record CpuUsage : Type 0 where
  pub user_percent : ℤ
  pub system_percent : ℤ
  pub total_percent : ℤ

pub record MemoryUsage : Type 0 where
  pub total_bytes : ℤ
  pub available_bytes : ℤ
  pub used_percent : ℤ
  pub swap_total_bytes : ℤ
  pub swap_used_bytes : ℤ

pub record NetworkInterfaceUsage : Type 0 where
  pub name : Text
  pub rx_bytes_per_sec : ℤ
  pub tx_bytes_per_sec : ℤ

pub record DiskIo : Type 0 where
  pub name : Text
  pub read_ops_per_sec : ℤ
  pub write_ops_per_sec : ℤ

pub record SystemUtilization : Type 0 where
  pub device : Text
  pub sampled_at : ℕ
  pub cpu : CpuUsage
  pub memory : MemoryUsage
  pub network : List NetworkInterfaceUsage
  pub disks : List DiskIo

-- int64(kb) * kbToBytes
unfoldable pub to_bytes : ℤ → ℤ
to_bytes kb = wrap_int64 (int_mul kb (pos 1024))

abbrev interface_usage : DsmNetworkStat → NetworkInterfaceUsage
interface_usage n = record { name = n.device; rx_bytes_per_sec = n.rx; tx_bytes_per_sec = n.tx }

abbrev disk_io : DsmDiskStat → DiskIo
disk_io d = record {
  name = d.device;
  read_ops_per_sec = d.read_access;
  write_ops_per_sec = d.write_access;
}

unfoldable pub system_utilization : ℕ → Text → DsmSystemUtilizationResponse → SystemUtilization
system_utilization now device util = record {
  device = device;
  sampled_at = now;
  cpu = record {
    user_percent = util.cpu.user_load;
    system_percent = util.cpu.system_load;
    total_percent =
        wrap_int64 (int_add (int_add util.cpu.user_load util.cpu.system_load) util.cpu.other_load);
  };
  memory = record {
    total_bytes = to_bytes util.memory.total_real;
    available_bytes = to_bytes util.memory.avail_real;
    used_percent = util.memory.real_usage;
    swap_total_bytes = to_bytes util.memory.total_swap;
    swap_used_bytes = to_bytes (int_add util.memory.total_swap (negated util.memory.avail_swap));
  };
  network =
      map interface_usage
        (filter (λ (n : DsmNetworkStat). not (n.device == lit "total")) util.network);
  disks = map disk_io util.disk.disk;
}

unfoldable pub utilization_item : ℕ → BackendEntry SystemBackend → Result SystemUtilization
utilization_item now de =
    wrapping (from_backend (lit "get system utilization") de.name) de.backend.get_system_utilization
    >>= λ util. ok (system_utilization now de.name util)

unfoldable pub list_system_utilization : ℕ → Service → Option Text → Result (List SystemUtilization)
list_system_utilization now s device =
    each_backend s.monitor device (utilization_item now) s.dsm_backends
