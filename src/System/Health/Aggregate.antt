-- ===== src/System/Health/Aggregate.antt =====
-- internal/system/health_service.go: GetSystemHealth.
use homelab_api.Base.{
  ℕ, Text, lit, ◌==◌, Bool, true, false, if◌then◌else◌, Option, some, none, List, [], ◌∷◌, ◌++◌,
  length, ltb,
}
use homelab_api.Base.Result.{Part, plain, Result, ok, err}
use homelab_api.Adapters.Registry.{Registry, BackendEntry}
use homelab_api.Adapters.Listing.{is_unavailable}
use homelab_api.Adapters.UniFi.{UniFiSubsystemHealth}
use homelab_api.System.Health.{
  HealthDsmBackend, HealthUniFiBackend, Service, HealthStatus, healthy, unhealthy, ComponentHealth,
  Health, worst_status, map_unifi_status, Verdict, storage_health, containers_health,
}

-- The variables `components` and `overall`.
pub record Progress : Type 0 where
  pub components : List ComponentHealth
  pub overall : HealthStatus

abbrev pub component : Text → HealthStatus → Option (List Part) → ComponentHealth
component name status message = record { name = name; status = status; message = message }

-- `components = append(components, …); overall = worstStatus(overall, status)`
unfoldable pub report : ComponentHealth → Progress → Progress
report c p = record {
  components = p.components ++ c ∷ [];
  overall = worst_status p.overall c.status;
}

-- An unhealthy component: `components = append(components, …); overall = Unhealthy`
unfoldable pub fail : Text → List Part → Progress → Progress
fail name message p = record {
  components = p.components ++ component name unhealthy (some message) ∷ [];
  overall = unhealthy;
}

-- A backend's name stands in front where there are several of its kind.
unfoldable pub prefixed : Bool → Text → Text → Text
prefixed many name what = if many then name ++ b':' ∷ what else what

abbrev offline : List Part
offline = plain (lit "offline") ∷ []

unfoldable pub add_subsystem : Bool → Text → UniFiSubsystemHealth → Progress → Progress
add_subsystem many controller sub p =
    if sub.status == lit "unknown"
    then p
    else report
        (component (prefixed many controller sub.subsystem) (map_unifi_status sub.status) none) p

unfoldable pub add_subsystems : Bool → Text → List UniFiSubsystemHealth → Progress → Progress
add_subsystems many controller [] p = p
add_subsystems many controller (sub ∷ subs) p =
    add_subsystems many controller subs (add_subsystem many controller sub p)

unfoldable pub add_network : Bool → Text → Result (List UniFiSubsystemHealth) → Progress → Progress
add_network many controller (ok subsystems) p = add_subsystems many controller subsystems p
add_network many controller (err e) p = fail (prefixed many controller (lit "network")) e.message p

-- `overall = Unhealthy` on an error, and worstStatus otherwise
unfoldable pub add_verdict :
    {X : Type 0} → Text → (Result X → Verdict) → Result X → Progress → Progress
add_verdict name judge (ok x) p =
    report (component name (judge (ok x)).verdict (judge (ok x)).note) p
add_verdict name judge (err e) p = fail name e.message p

-- `if de.dockerEnabled { … }`
unfoldable pub when : Bool → (Progress → Progress) → Progress → Progress
when true f p = f p
when false f p = p

module _ (s : Service) where
  unfoldable pub add_controllers : Registry HealthUniFiBackend → Progress → Progress
  add_controllers [] p = p
  add_controllers (ue ∷ ues) p =
      let many = ltb 1 (length s.unifi_backends) in
      add_controllers ues (
        if is_unavailable s.monitor ue.name
        then fail (prefixed many ue.name (lit "network")) offline p
        else add_network many ue.name ue.backend.get_health p)

  unfoldable pub add_offline_device : BackendEntry HealthDsmBackend → Progress → Progress
  add_offline_device de p =
      let many = ltb 1 (length s.dsm_backends) in
      when de.backend.docker_enabled (fail (prefixed many de.name (lit "containers")) offline)
        (fail (prefixed many de.name (lit "storage")) offline p)

  unfoldable pub add_device : BackendEntry HealthDsmBackend → Progress → Progress
  add_device de p =
      let many = ltb 1 (length s.dsm_backends) in
      when de.backend.docker_enabled
        (add_verdict (prefixed many de.name (lit "containers")) containers_health
          de.backend.list_containers)
        (add_verdict (prefixed many de.name (lit "storage")) storage_health
          de.backend.get_storage_volumes p)

  unfoldable pub add_devices : Registry HealthDsmBackend → Progress → Progress
  add_devices [] p = p
  add_devices (de ∷ des) p =
      add_devices des
        (if is_unavailable s.monitor de.name then add_offline_device de p else add_device de p)

  unfoldable pub get_system_health : ℕ → Health
  get_system_health now =
      let start : Progress = record { components = []; overall = healthy } in
      let p = add_devices s.dsm_backends (add_controllers s.unifi_backends start) in
      record { status = p.overall; checked_at = now; components = p.components }
