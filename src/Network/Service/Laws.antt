-- ===== src/Network/Service/Laws.antt =====
-- When an ID that a list operation hands out leads back to its controller.
use homelab_api.Base.{Text, lit, [], ◌≡◌, ◌≢◌, refl, arith, All, Distinct, In, All-In}
use homelab_api.Base.Strings.Cut.{Lacks}
use homelab_api.Base.Result.{ok}
use homelab_api.ApiErrors.Laws.{parse_composite_id_iff}
use homelab_api.Adapters.Registry.{BackendEntry}
use homelab_api.Adapters.Registry.Laws.{names, find-In}
use homelab_api.Network.Service.{UniFiBackend, Service, find_backend, parse_id, composite_id}

-- A controller's name that can stand in a composite ID.
abbrev pub IsPlainName : Text → Type 0
IsPlainName name = (name ≢ []) × Lacks b'.' name

-- The controllers' names differ, and each can stand in a composite ID.
pub record IsRoutable (s : Service) : Type 0 where
  pub distinct : Distinct (names s.backends)
  pub plain : All (λ (e : BackendEntry UniFiBackend). IsPlainName e.name) s.backends

module _ (s : Service) (ready : IsRoutable s) (e : BackendEntry UniFiBackend)
    (i : In e s.backends) where
  pub find_backend-In : find_backend s e.name ≡ ok e.backend
  unfolding find_backend
  find_backend-In = ground (arith, find-In s.backends e ready.distinct i)

  pub parse_id-composite_id :
      (suffix : Text) → suffix ≢ [] → parse_id (composite_id e.name suffix) ≡ ok (e.name, suffix)
  unfolding parse_id composite_id
  parse_id-composite_id suffix given =
      let (named, lacks) =
        All-In (λ (x : BackendEntry UniFiBackend). IsPlainName x.name) s.backends e ready.plain i in
      (parse_composite_id_iff (lit "ID") (lit "controller.suffix") _ e.name suffix).1
        (record { spelled = refl; no_dot = lacks; device_given = named; suffix_given = given })
