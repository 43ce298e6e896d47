-- ===== src/System/Info/Laws.antt =====
-- internal/system/info_service.go and internal/system/utilization_service.go: which backends are
-- listed, and the units of what they report.
use homelab_api.Base.{
  ℕ, ◌*◌, ◌-◌, ◌^◌, ◌<◌, ◌≤◌, ◌+◌, Text, Bool, true, false, not, ◌&&◌, if◌then◌else◌, Option, List,
  [], ◌∷◌, map, filter, ◌≡◌, refl, sym, ap, zero, suc, arith,
}
use homelab_api.Base.Int.{pos, wrap_int64, int_add, negated}
use homelab_api.Base.Result.{Part, Result, ok, err, wrapping, ◌>>=◌}
use homelab_api.Adapters.Registry.{Registry, BackendEntry}
use homelab_api.Adapters.Listing.{is_unavailable, is_filtered_out}
use homelab_api.Adapters.Synology.System.{DsmSystemUtilizationResponse}
use homelab_api.System.Info.{
  SystemBackend, Service, SystemInfo, system_info, each_backend, info_item, list_system_info,
  system_utilization, to_bytes,
}

-- The backends that pass the device filter and are available.
abbrev pub selected : Option (Text → Bool) → Option Text → Registry SystemBackend → List Text
selected monitor device des =
    map (λ (de : BackendEntry SystemBackend). de.name)
      (filter
        (λ (de : BackendEntry SystemBackend).
          not (is_filtered_out device de.name) && not (is_unavailable monitor de.name))
        des)

module _ {A : Type 0} (name_of : A → Text) (item : BackendEntry SystemBackend → Result A)
    (named : (de : BackendEntry SystemBackend) (a : A) → item de ≡ ok a → name_of a ≡ de.name) where
  names-append :
      (de : BackendEntry SystemBackend) (r : Result A) (rest : Result (List A)) (names : List Text)
      → ((a : A) → r ≡ ok a → name_of a ≡ de.name)
      → ((more : List A) → rest ≡ ok more → map name_of more ≡ names)
      → (items : List A) → (r >>= λ a. rest >>= λ more. ok (a ∷ more)) ≡ ok items
      → map name_of items ≡ de.name ∷ names
  names-append de (ok a) (ok more) names h k items e =
      let e' : a ∷ more ≡ items = cc in rw (← e') (rw (h a refl, k more refl) refl)
  names-append de (ok a) (err x) names h k items e = cc
  names-append de (err x) rest names h k items e = cc

  -- One backend in front of the others, by what its two tests say.
  names-selected :
      (de : BackendEntry SystemBackend) (filtered unavailable : Bool) (rest : Result (List A))
      (later : Registry SystemBackend) (items : List A)
      → ((more : List A)
          → rest ≡ ok more
          → map name_of more ≡ map (λ (x : BackendEntry SystemBackend). x.name) later)
      → (if filtered
          then rest
          else if unavailable
          then rest
          else item de >>= λ a. rest >>= λ more. ok (a ∷ more))
        ≡ ok items
      → map name_of items
        ≡ map
            (λ (x : BackendEntry SystemBackend). x.name)
            (if not filtered && not unavailable then de ∷ later else later)
  names-selected de true unavailable rest later items k h = k items h
  names-selected de false true rest later items k h = k items h
  names-selected de false false rest later items k h =
      names-append de (item de) rest _ (named de) k items h

  names-each_backend :
      (monitor : Option (Text → Bool)) (device : Option Text) (des : Registry SystemBackend)
      (items : List A)
      → each_backend monitor device item des ≡ ok items
      → map name_of items ≡ selected monitor device des
  unfolding each_backend
  names-each_backend monitor device [] items e = let e' : [] ≡ items = cc in rw (← e') refl
  names-each_backend monitor device (de ∷ des) items e =
      names-selected de (is_filtered_out device de.name) (is_unavailable monitor de.name)
        (each_backend monitor device item des) _ items (names-each_backend monitor device des) e

answered :
    {X A : Type 0} (prefix : List Part) (r : Result X) (f : X → A) (a : A)
    → (wrapping prefix r >>= λ x. ok (f x)) ≡ ok a
    → (x : X) × (f x ≡ a)
answered prefix (ok x) f a e = (x, cc)
answered prefix (err x) f a e = cc

info_item-device :
    (de : BackendEntry SystemBackend) (a : SystemInfo) → info_item de ≡ ok a → a.device ≡ de.name
unfolding info_item system_info
info_item-device de a e =
    let (info, built) = answered _ de.backend.get_system_info (system_info de.name) a e in
    ap (λ (x : SystemInfo). x.device) (sym built)

-- ListSystemInfo, if it succeeds, returns one item for each available backend that passes the
-- device filter, in order.
pub list_system_info-selected :
    (s : Service) (device : Option Text) (items : List SystemInfo)
    → list_system_info s device ≡ ok items
    → map (λ (x : SystemInfo). x.device) items ≡ selected s.monitor device s.dsm_backends
unfolding list_system_info
list_system_info-selected s device items h =
    names-each_backend (λ (x : SystemInfo). x.device) info_item info_item-device s.monitor device
      s.dsm_backends items h

to_bytes-exact : (kb : ℕ) → kb < 2 ^ 53 → to_bytes (pos kb) ≡ pos (kb * 1024)
unfolding to_bytes wrap_int64
to_bytes-exact kb h = ground arith

swap_in_use :
    (swap left : ℕ) → left ≤ swap → int_add (pos swap) (negated (pos left)) ≡ pos (swap - left)
swap_in_use swap zero h = ap pos (omega arith)
swap_in_use swap (suc n) h = ground arith

-- The memory of a DSM's utilization is in bytes, without overflow, if the DSM reports less than
-- 2 ^ 53 kilobytes of memory and of swap, none of its figures is negative, and no more memory or swap
-- is available than there is in total: each figure is 1024 times what the DSM reports, and the swap
-- in use and the available swap add up to the total.
pub memory-system_utilization :
    (now : ℕ) (device : Text) (util : DsmSystemUtilizationResponse) (real free swap left : ℕ)
    → util.memory.total_real ≡ pos real
    → util.memory.avail_real ≡ pos free
    → util.memory.total_swap ≡ pos swap
    → util.memory.avail_swap ≡ pos left
    → free ≤ real
    → left ≤ swap
    → real < 2 ^ 53
    → swap < 2 ^ 53
    → let m = (system_utilization now device util).memory in
      (m.total_bytes ≡ pos (real * 1024))
      × (m.available_bytes ≡ pos (free * 1024))
      × (m.swap_total_bytes ≡ pos (swap * 1024))
      × ((used : ℕ) × (m.swap_used_bytes ≡ pos used) × (used + left * 1024 ≡ swap * 1024))
unfolding system_utilization
memory-system_utilization now device util real free swap left er ef es el hf hl hr hs = (
  rw er (to_bytes-exact real hr),
  rw ef (to_bytes-exact free (omega arith)),
  rw es (to_bytes-exact swap hs),
  (
    (swap - left) * 1024,
    rw (es, el, swap_in_use swap left hl) (to_bytes-exact _ (omega arith)),
    omega arith,
  ),
)
