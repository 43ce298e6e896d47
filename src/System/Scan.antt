-- ===== src/System/Scan.antt =====
-- internal/system/service.go, and the scan of the running containers of
-- internal/system/updates_service.go.
pub mod Laws
use homelab_api.Base.{
  Text, ◌==◌, lit, ℕ, Bool, true, not, ◌||◌, if◌then◌else◌, Option, List, [], ◌∷◌, ◌++◌, map, ◌&&◌,
}
use homelab_api.Base.Int.{ℤ, pos, negsuc, is_pos}
use homelab_api.Base.Dict.{Dict, insert, flag}
use homelab_api.Base.Result.{Result, ok, err}
use homelab_api.Config.{UpdatesConfig, ImageSourceConfig}
use homelab_api.Adapters.Registry.{Registry, BackendEntry, new_registry}
use homelab_api.Adapters.Listing.{is_unavailable}
use homelab_api.Adapters.Synology.{DsmContainer}
use homelab_api.System.Images.{
  ImageSource, split_image_tag, is_version_tag, resolve_source, github_base_url, codeberg_base_url,
}
use homelab_api.System.Releases.{ReleasesCache}

-- A dsmEntry less its name, which the registry's entry holds.
pub record DsmBackendConfig : Type 0 where
  pub docker_enabled : Bool
  pub list_containers : Result (List DsmContainer)

pub record Service : Type 0 where
  pub dsm_backends : Registry DsmBackendConfig
  pub monitor : Option (Text → Bool)
  pub sources : Dict ImageSource
  pub update_cache_ttl : ℕ

pub record State : Type 0 where
  pub warned_images : Dict Bool
  pub gh_cache : Option ReleasesCache

image_source : ImageSourceConfig → ImageSource
image_source c =
    if c.type == lit "codeberg"
    then record {
      repo = c.source;
      api_base = codeberg_base_url;
      source_url = lit "https://codeberg.org/" ++ c.source;
    }
    else record {
      repo = c.source;
      api_base = github_base_url;
      source_url = lit "https://github.com/" ++ c.source;
    }

add_sources : List ImageSourceConfig → Dict ImageSource → Dict ImageSource
unfolding image_source
add_sources [] m = m
add_sources (c ∷ cs) m = add_sources cs (insert c.image (image_source c) m)

-- A `check_interval` that is not positive stands for an hour.
ttl_of : ℤ → ℕ
ttl_of (pos n) = if is_pos (pos n) then n else 3600000000000
ttl_of (negsuc n) = 3600000000000

pub new_service : Dict DsmBackendConfig → UpdatesConfig → Option (Text → Bool) → Service
unfolding add_sources ttl_of
new_service dsm_backends updates_cfg monitor = record {
  dsm_backends = new_registry dsm_backends;
  monitor = monitor;
  sources = add_sources updates_cfg.sources [];
  update_cache_ttl = ttl_of updates_cfg.check_interval;
}

pub record Candidate : Type 0 where
  pub device : Text
  pub name : Text
  pub image : Text
  pub tag : Text
  pub source : ImageSource

-- The warning about an image that has no release source.
pub record ImageWarning : Type 0 where
  pub container : Text
  pub image : Text

-- What the scan has done so far, and what it does from there on.
pub record Scan : Type 0 where
  pub candidates : List Candidate
  pub repos : Dict Text
  pub warned_images : Dict Bool
  pub log : List ImageWarning

add_repo : ImageSource → Dict Text → Dict Text
add_repo src repos = if not (src.repo == []) then insert src.repo src.api_base repos else repos

should_warn : ImageSource → Text → Dict Bool → Bool
should_warn src image warned = src.repo == [] && not (flag image warned)

-- The rounds of the inner loop, for the containers of the devices that are scanned; `repos` and
-- `warned` are what the rounds before have left.
pub scan_containers : Dict ImageSource → List (Text × DsmContainer) → Dict Text → Dict Bool → Scan
unfolding add_repo should_warn
scan_containers sources [] repos warned = record {
  candidates = [];
  repos = repos;
  warned_images = warned;
  log = [];
}
scan_containers sources ((device, c) ∷ cs) repos warned =
    let (image, tag) = split_image_tag c.image in
    let src = resolve_source sources image in
    let skipped = scan_containers sources cs repos warned in
    let warns = should_warn src image warned in
    let rest =
      scan_containers sources cs (add_repo src repos)
        (if warns then insert image true warned else warned) in
    if not (is_version_tag tag) then skipped else record {
      candidates =
          record { device = device; name = c.name; image = image; tag = tag; source = src }
          ∷ rest.candidates;
      repos = rest.repos;
      warned_images = rest.warned_images;
      log = if warns then record { container = c.name; image = image } ∷ rest.log else rest.log;
    }

-- The containers that the outer loop reaches; a backend that does not answer is passed over.
containers_of :
    BackendEntry DsmBackendConfig → Result (List DsmContainer) → List (Text × DsmContainer)
containers_of entry (err e) = []
containers_of entry (ok containers) = map (λ (c : DsmContainer). (entry.name, c)) containers

pub scanned_containers :
    Option (Text → Bool) → Registry DsmBackendConfig → List (Text × DsmContainer)
unfolding containers_of
scanned_containers monitor [] = []
scanned_containers monitor (entry ∷ entries) =
    let rest = scanned_containers monitor entries in
    if not entry.backend.docker_enabled || is_unavailable monitor entry.name
    then rest
    else containers_of entry entry.backend.list_containers ++ rest
