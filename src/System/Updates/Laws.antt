-- ===== src/System/Updates/Laws.antt =====
-- The releases that stay known after a request for updates.
use homelab_api.Base.{Text, Bool, []}
use homelab_api.Base.Result.{Result}
use homelab_api.System.Releases.{GitHubRelease}
use homelab_api.System.Releases.Laws.{Known, get_or_fetch_releases-Known}
use homelab_api.System.Scan.{Service, State, scanned_containers}
use homelab_api.System.Scan.Laws.{scan_containers-Distinct}
use homelab_api.System.Updates.{Times, build_update_items}

module _ (fetch : Text → Text → Result GitHubRelease) (s : Service) where
  -- A repository whose release the service knows stays known after any request for updates,
  -- whatever the containers, the backends and the release hosts answer.
  pub build_update_items-Known :
      (t : Times) (st : State) (force_github : Bool) (repo : Text)
      → Known fetch st.gh_cache repo
      → Known fetch (build_update_items fetch s t st force_github).state.gh_cache repo
  unfolding build_update_items
  build_update_items-Known t st force_github repo known =
      get_or_fetch_releases-Known fetch s.update_cache_ttl t.now t.done st.gh_cache _ force_github
        repo
        (scan_containers-Distinct s.sources (scanned_containers s.monitor s.dsm_backends) []
          st.warned_images tt)
        known
