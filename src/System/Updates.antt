-- ===== src/System/Updates.antt =====
-- internal/system/updates_service.go: the update items.
-- The service's fields that a request changes, the images warned about and the cache, are passed
-- along; the union of the detail types has one member, ContainerSystemUpdateDetail.
pub mod Laws
pub mod Warnings
mod Tests
use homelab_api.Base.{
  Text, ◌==◌, lit, ℕ, Bool, true, false, not, if◌then◌else◌, Option, some, none, List, [], ◌∷◌,
  ◌++◌, map, filter, find,
}
use homelab_api.Base.Dict.{Dict, lookup}
use homelab_api.Base.Result.{plain, Result, ok, err, wrap, err_not_found}
use homelab_api.Base.Loop.{Warning}
use homelab_api.System.Images.{normalize_version}
use homelab_api.System.Releases.{GitHubRelease, get_or_fetch_releases}
use homelab_api.System.Scan.{
  Service, State, Candidate, ImageWarning, scan_containers, scanned_containers,
}

pub data SystemUpdateStatus : Type 0 where
  up_to_date update_available unknown stale : SystemUpdateStatus

pub record ContainerSystemUpdateDetail : Type 0 where
  pub id : Text
  pub name : Text
  pub status : SystemUpdateStatus
  pub current_version : Text
  pub latest_version : Text
  pub checked_at : ℕ
  pub image : Text
  pub device : Text
  pub source : Text
  pub release_url : Text
  pub published_at : ℕ

-- The item without a release.
default_item : ℕ → Candidate → ContainerSystemUpdateDetail
default_item checked_at cc = record {
  id = cc.device ++ b'.' ∷ cc.name;
  name = cc.name;
  status = if not (cc.source.repo == []) then stale else unknown;
  current_version = cc.tag;
  latest_version = cc.tag;
  checked_at = checked_at;
  image = cc.image;
  device = cc.device;
  source = cc.source.source_url;
  release_url = cc.source.source_url ++ lit "/releases";
  published_at = checked_at;
}

pub build_item : ℕ → Dict GitHubRelease → Candidate → ContainerSystemUpdateDetail
unfolding default_item
build_item checked_at releases cc = elim (lookup cc.source.repo releases) [
  | none ↦ default_item checked_at cc
  | some release ↦ record (default_item checked_at cc) {
    latest_version = release.tag_name;
    release_url = release.html_url;
    published_at = release.published_at;
    status =
        if normalize_version release.tag_name == normalize_version cc.tag
        then up_to_date
        else update_available;
  }
]

pub record SystemUpdate : Type 0 where
  pub id : Text
  pub name : Text
  pub status : SystemUpdateStatus
  pub device : Text
  pub current_version : Text
  pub latest_version : Text
  pub checked_at : ℕ

status_eq : SystemUpdateStatus → SystemUpdateStatus → Bool
status_eq up_to_date up_to_date = true
status_eq update_available update_available = true
status_eq unknown unknown = true
status_eq stale stale = true
status_eq a b = false

-- `status == nil || item.Status == *status`
passes : Option SystemUpdateStatus → ContainerSystemUpdateDetail → Bool
unfolding status_eq
passes none item = true
passes (some status) item = status_eq item.status status

to_system_update : ContainerSystemUpdateDetail → SystemUpdate
to_system_update item = record {
  id = item.id;
  name = item.name;
  status = item.status;
  device = item.device;
  current_version = item.current_version;
  latest_version = item.latest_version;
  checked_at = item.checked_at;
}

-- The filter by type is on containers or absent: there is no other type of update.
to_system_update_list :
    List ContainerSystemUpdateDetail → Option SystemUpdateStatus → List SystemUpdate
unfolding passes to_system_update
to_system_update_list items status = map to_system_update (filter (passes status) items)

-- The items of a request, the state that it leaves, and what it logs.
pub record Built : Type 0 where
  pub items : List ContainerSystemUpdateDetail
  pub state : State
  pub image_log : List ImageWarning
  pub fetch_log : List Warning

-- When the request starts, when it looks at the cache, and when a fetch would end.
pub record Times : Type 0 where
  pub checked_at : ℕ
  pub now : ℕ
  pub done : ℕ

module _ (fetch : Text → Text → Result GitHubRelease) (s : Service) where
  pub build_update_items : Times → State → Bool → Built
  build_update_items t st force_github =
      let scan =
        scan_containers s.sources (scanned_containers s.monitor s.dsm_backends) []
          st.warned_images in
      let got =
        get_or_fetch_releases fetch s.update_cache_ttl t.now t.done st.gh_cache scan.repos
          force_github in
      record {
        items = map (build_item t.checked_at got.releases) scan.candidates;
        state = record { warned_images = scan.warned_images; gh_cache = got.cache };
        image_log = scan.log;
        fetch_log = got.log;
      }

  pub list_system_updates : Times → State → Option SystemUpdateStatus → List SystemUpdate × State
  unfolding build_update_items to_system_update_list
  list_system_updates t st status =
      let built = build_update_items t st false in
      (to_system_update_list built.items status, built.state)

  pub get_system_update : Times → State → Text → Result ContainerSystemUpdateDetail × State
  unfolding build_update_items
  get_system_update t st id =
      let built = build_update_items t st false in
      (
        elim (find (λ (item : ContainerSystemUpdateDetail). item.id == id) built.items) [
          | some item ↦ ok item
          | none ↦
              err (wrap (plain (lit "system update not found: ") ∷ plain id ∷ []) err_not_found)
        ],
        built.state,
      )

  pub check_system_updates : Times → State → List SystemUpdate × State
  unfolding build_update_items to_system_update_list
  check_system_updates t st =
      let built = build_update_items t st true in
      (to_system_update_list built.items none, built.state)
