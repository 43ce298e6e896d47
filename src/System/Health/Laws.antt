-- ===== src/System/Health/Laws.antt =====
-- internal/system/health_service.go: the aggregate is the worst of its components.
use homelab_api.Base.{
  ℕ, ◌≤◌, Text, Bool, true, false, if◌then◌else◌, ◌==◌, lit, List, [], ◌∷◌, ◌++◌, ◌≡◌, ◌⊎◌, refl,
  arith, In, In-append_left, In-append_right, In-append_cases, inl, inr, subst, sym,
}
use homelab_api.Base.Result.{Part, Result, ok, err}
use homelab_api.Adapters.Registry.{Registry}
use homelab_api.Adapters.Listing.{is_unavailable}
use homelab_api.Adapters.UniFi.{UniFiSubsystemHealth}
use homelab_api.System.Health.{
  HealthDsmBackend, HealthUniFiBackend, Service, HealthStatus, healthy, degraded, unhealthy,
  ComponentHealth, worst_status, Verdict, storage_health, containers_health,
}
use homelab_api.System.Health.Aggregate.{
  Progress, report, fail, add_subsystem, add_subsystems, add_network, add_verdict, when,
  add_controllers, add_offline_device, add_device, add_devices, get_system_health,
}

abbrev pub severity : HealthStatus → ℕ
severity healthy = 0
severity degraded = 1
severity unhealthy = 2

-- No component is worse than `st`, and one is as bad, unless `st` is healthy.
pub record IsWorst (components : List ComponentHealth) (st : HealthStatus) : Type 0 where
  pub bound : (c : ComponentHealth) → In c components → severity c.status ≤ severity st
  pub attained : (st ≡ healthy) ⊎ ((c : ComponentHealth) × In c components × (c.status ≡ st))

worst_left : (a b : HealthStatus) → severity a ≤ severity (worst_status a b)
unfolding worst_status
worst_left a b = ground arith

worst_right : (a b : HealthStatus) → severity b ≤ severity (worst_status a b)
unfolding worst_status
worst_right a b = ground arith

worst_cases : (a b : HealthStatus) → (worst_status a b ≡ a) ⊎ (worst_status a b ≡ b)
unfolding worst_status
worst_cases a b = ground arith

abbrev Sound : Progress → Type 0
Sound p = IsWorst p.components p.overall

bounded :
    (cs : List ComponentHealth) (new : ComponentHealth) (st : HealthStatus)
    → ((c : ComponentHealth) → In c cs → severity c.status ≤ severity st)
    → severity new.status ≤ severity st
    → (c : ComponentHealth) → In c (cs ++ new ∷ [])
    → severity c.status ≤ severity st
bounded cs new st h n c i = elim (In-append_cases c cs (new ∷ []) i) [
  | inl old ↦ h c old
  | inr (inl e) ↦ subst (λ (x : ComponentHealth). severity x.status ≤ severity st) e n
  | inr (inr none_left) ↦ absurd none_left
]

Sound-report : (c : ComponentHealth) (p : Progress) → Sound p → Sound (report c p)
unfolding report
Sound-report c p s = record {
  bound =
      bounded p.components c _ (λ x i. omega (arith, s.bound x i, worst_left p.overall c.status))
        (worst_right p.overall c.status);
  attained = elim (worst_cases p.overall c.status) [
    | inr e ↦ inr (c, In-append_right c p.components (c ∷ []) (inl refl), sym e)
    | inl e ↦ elim s.attained [
      | inl h ↦ inl (rw (e, h) refl)
      | inr (x, i, h) ↦ inr (x, In-append_left x p.components (c ∷ []) i, rw (e, h) refl)
    ]
  ];
}

at_most_unhealthy : (st : HealthStatus) → severity st ≤ 2
at_most_unhealthy st = ground arith

Sound-fail :
    (name : Text) (message : List Part) (p : Progress) → Sound p → Sound (fail name message p)
unfolding fail
Sound-fail name message p s = record {
  bound = bounded p.components _ unhealthy (λ x i. at_most_unhealthy x.status) (omega arith);
  attained = inr (_, In-append_right _ p.components _ (inl refl), refl);
}

Sound-if : (b : Bool) (p q : Progress) → Sound p → Sound q → Sound (if b then p else q)
Sound-if true p q h k = h
Sound-if false p q h k = k

Sound-add_subsystems :
    (many : Bool) (controller : Text) (subs : List UniFiSubsystemHealth) (p : Progress)
    → Sound p
    → Sound (add_subsystems many controller subs p)
unfolding add_subsystems add_subsystem
Sound-add_subsystems many controller [] p s = s
Sound-add_subsystems many controller (sub ∷ subs) p s =
    Sound-add_subsystems many controller subs _
      (Sound-if (sub.status == lit "unknown") _ _ s (Sound-report _ p s))

Sound-add_network :
    (many : Bool) (controller : Text) (r : Result (List UniFiSubsystemHealth)) (p : Progress)
    → Sound p
    → Sound (add_network many controller r p)
unfolding add_network
Sound-add_network many controller (ok subs) p s = Sound-add_subsystems many controller subs p s
Sound-add_network many controller (err e) p s = Sound-fail _ _ p s

Sound-add_verdict :
    {X : Type 0} (name : Text) (judge : Result X → Verdict) (r : Result X) (p : Progress)
    → Sound p
    → Sound (add_verdict name judge r p)
unfolding add_verdict
Sound-add_verdict name judge (ok x) p s = Sound-report _ p s
Sound-add_verdict name judge (err e) p s = Sound-fail _ _ p s

Sound-when :
    (b : Bool) (f : Progress → Progress) (p : Progress)
    → ((q : Progress) → Sound q → Sound (f q))
    → Sound p
    → Sound (when b f p)
unfolding when
Sound-when true f p h s = h p s
Sound-when false f p h s = s

module _ (s : Service) where
  Sound-add_controllers :
      (ues : Registry HealthUniFiBackend) (p : Progress) → Sound p → Sound (add_controllers s ues p)
  unfolding add_controllers
  Sound-add_controllers [] p h = h
  Sound-add_controllers (ue ∷ ues) p h = Sound-add_controllers ues _ (
      Sound-if (is_unavailable s.monitor ue.name) _ _ (Sound-fail _ _ p h)
        (Sound-add_network _ ue.name ue.backend.get_health p h))

  Sound-add_devices :
      (des : Registry HealthDsmBackend) (p : Progress) → Sound p → Sound (add_devices s des p)
  unfolding add_devices add_offline_device add_device
  Sound-add_devices [] p h = h
  Sound-add_devices (de ∷ des) p h = Sound-add_devices des _ (
      Sound-if (is_unavailable s.monitor de.name) _ _
        (Sound-when de.backend.docker_enabled _ _ (Sound-fail _ _) (Sound-fail _ _ p h))
        (Sound-when de.backend.docker_enabled _ _
          (Sound-add_verdict _ containers_health de.backend.list_containers)
          (Sound-add_verdict _ storage_health de.backend.get_storage_volumes p h)))

  -- The status of GetSystemHealth is the worst of its components: no component is worse, and one is
  -- as bad unless all is healthy, whatever the backends answer.
  pub get_system_health-IsWorst :
      (now : ℕ) → IsWorst (get_system_health s now).components (get_system_health s now).status
  unfolding get_system_health
  get_system_health-IsWorst now = Sound-add_devices s.dsm_backends _ (
      Sound-add_controllers s.unifi_backends _
        (record { bound = λ c i. absurd i; attained = inl refl }))
