-- ===== src/System/Health.antt =====
-- internal/system/health_service.go: the aggregate health. What a backend answers is fixed while the
-- request is served, and `checked_at` is the time of the answer. What is logged is left out.
pub mod Aggregate
pub mod Laws
mod Tests
use homelab_api.Base.{
  ℕ, Text, lit, ◌==◌, ◌||◌, Bool, true, false, not, if◌then◌else◌, Option, some, none, List, [],
  ◌∷◌, ◌++◌, filter, length, eqb, ltb,
}
use homelab_api.Base.Int.{pos}
use homelab_api.Base.Int.Decimal.{format}
use homelab_api.Base.Result.{Part, plain, Result, ok, err}
use homelab_api.Adapters.Registry.{Registry}
use homelab_api.Adapters.Synology.{DsmContainer, DsmStorageVolume, DsmStorageVolumeResponse}
use homelab_api.Adapters.UniFi.{UniFiSubsystemHealth}

-- HealthDSMBackend with the flag of DSMBackendConfig, and HealthUniFiBackend.
pub record HealthDsmBackend : Type 0 where
  pub get_storage_volumes : Result DsmStorageVolumeResponse
  pub list_containers : Result (List DsmContainer)
  pub docker_enabled : Bool

pub record HealthUniFiBackend : Type 0 where
  pub get_health : Result (List UniFiSubsystemHealth)

pub record Service : Type 0 where
  pub dsm_backends : Registry HealthDsmBackend
  pub unifi_backends : Registry HealthUniFiBackend
  pub monitor : Option (Text → Bool)

pub data HealthStatus : Type 0 where
  healthy degraded unhealthy : HealthStatus

-- A message is pieces of text, as an error's is; none stands for nil.
pub record ComponentHealth : Type 0 where
  pub name : Text
  pub status : HealthStatus
  pub message : Option (List Part)

pub record Health : Type 0 where
  pub status : HealthStatus
  pub checked_at : ℕ
  pub components : List ComponentHealth

abbrev pub is_unhealthy : HealthStatus → Bool
is_unhealthy unhealthy = true
is_unhealthy degraded = false
is_unhealthy healthy = false

abbrev pub is_degraded : HealthStatus → Bool
is_degraded degraded = true
is_degraded unhealthy = false
is_degraded healthy = false

unfoldable pub worst_status : HealthStatus → HealthStatus → HealthStatus
worst_status a b =
    if is_unhealthy a || is_unhealthy b
    then unhealthy
    else if is_degraded a || is_degraded b
    then degraded
    else healthy

unfoldable pub map_unifi_status : Text → HealthStatus
map_unifi_status status =
    if status == lit "ok" then healthy else if status == lit "unknown" then degraded else unhealthy

unfoldable pub map_volume_status : Text → HealthStatus
map_volume_status status =
    if status == lit "normal"
    then healthy
    else if status == lit "degraded" || status == lit "repairing"
    then degraded
    else if status == lit "crashed"
    then unhealthy
    else degraded

-- The loop of storageHealth: the worst status, and the volumes that are degraded and crashed.
pub record Tally : Type 0 where
  pub worst : HealthStatus
  pub degraded_ids : List Text
  pub crashed_ids : List Text

unfoldable pub tally_as : HealthStatus → Text → Tally → Tally
tally_as unhealthy id t = record t { crashed_ids = t.crashed_ids ++ id ∷ [] }
tally_as degraded id t = record t { degraded_ids = t.degraded_ids ++ id ∷ [] }
tally_as healthy id t = t

unfoldable pub tally_volume : DsmStorageVolume → Tally → Tally
tally_volume v t =
    let st = map_volume_status v.status in
    tally_as st v.id (record t { worst = worst_status t.worst st })

unfoldable pub tally_volumes : List DsmStorageVolume → Tally → Tally
tally_volumes [] t = t
tally_volumes (v ∷ vs) t = tally_volumes vs (tally_volume v t)

-- strings.Join(ids, ", "), as pieces
unfoldable pub joined : List Text → List Part
joined [] = []
joined (id ∷ []) = plain id ∷ []
joined (id ∷ next ∷ ids) = plain id ∷ plain (lit ", ") ∷ joined (next ∷ ids)

unfoldable pub storage_message : Tally → Option (List Part)
storage_message t =
    if ltb 0 (length t.crashed_ids)
    then some (plain (lit "crashed: ") ∷ joined t.crashed_ids)
    else if ltb 0 (length t.degraded_ids)
    then some (plain (lit "degraded: ") ∷ joined t.degraded_ids)
    else none

-- What storageHealth and containersHealth return: on an error, Unhealthy with its message.
pub record Verdict : Type 0 where
  pub verdict : HealthStatus
  pub note : Option (List Part)

unfoldable pub storage_health : Result DsmStorageVolumeResponse → Verdict
storage_health (err e) = record { verdict = unhealthy; note = some e.message }
storage_health (ok resp) =
    let t =
      tally_volumes resp.volumes
        (record { worst = healthy; degraded_ids = []; crashed_ids = [] }) in
    record { verdict = t.worst; note = storage_message t }

unfoldable pub containers_health : Result (List DsmContainer) → Verdict
containers_health (err e) = record { verdict = unhealthy; note = some e.message }
containers_health (ok containers) =
    let not_running = length (filter (λ (c : DsmContainer). not c.state.running) containers) in
    if eqb not_running 0 then record { verdict = healthy; note = none } else record {
      verdict = degraded;
      note = some (plain (format (pos not_running)) ∷ plain (lit " container(s) not running") ∷ []);
    }
