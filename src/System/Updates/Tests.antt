-- ===== src/System/Updates/Tests.antt =====
-- A container without a release source, and a cache that knows a repository.
use homelab_api.Base.{Text, lit, ◌==◌, true, false, some, none, List, [], ◌∷◌, refl, In}
use homelab_api.Base.Int.{pos}
use homelab_api.Base.Result.{Result, ok, err, err_not_found}
use homelab_api.Base.Dict.{lookup}
use homelab_api.Adapters.Synology.{DsmContainer}
use homelab_api.System.Releases.{GitHubRelease, cached_releases}
use homelab_api.System.Releases.Laws.{Known}
use homelab_api.System.Scan.{DsmBackendConfig, Service, State}
use homelab_api.System.Scan.Laws.{IsFreshLog, IsUnsourced}
use homelab_api.System.Updates.Warnings.{Request, serve_all, Meets, Warned, serve_all-IsWarned}
use homelab_api.System.Updates.{Times, build_update_items}
use homelab_api.System.Updates.Laws.{build_update_items-Known}

abbrev web : DsmContainer
web = record {
  id = lit "7";
  name = lit "web";
  image = lit "nginx:1.27";
  status = lit "running";
  state = record {
    dead = false;
    paused = false;
    restarting = false;
    running = false;
    status = [];
    started_at = [];
    finished_at = [];
    exit_code = pos 0;
    oom_killed = false;
  };
}

abbrev release : GitHubRelease
release = record { tag_name = lit "v2"; html_url = lit "https://github.com/a/b"; published_at = 5 }

abbrev unreachable : Text → Text → Result GitHubRelease
unreachable repo api_base = err err_not_found

abbrev service : Service
service = record { dsm_backends = []; monitor = none; sources = []; update_cache_ttl = 10 }

abbrev state : State
state = record {
  warned_images = [];
  gh_cache = some (record { releases = (lit "a/b", release) ∷ []; fetched_at = 0 });
}

abbrev times : Times
times = record { checked_at = 20; now = 20; done = 21 }

state-Known : Known unreachable state.gh_cache (lit "a/b")
unfolding lookup lit ◌==◌ cached_releases
state-Known = (release, refl)

build_update_items-Known_example :
    Known unreachable
      (build_update_items unreachable service times state false).state.gh_cache
      (lit "a/b")
build_update_items-Known_example =
    build_update_items-Known unreachable service times state false (lit "a/b") state-Known

abbrev nas : DsmBackendConfig
nas = record { docker_enabled = true; list_containers = ok (web ∷ []) }

-- Each request meets the container.
abbrev request : Request
request = record {
  monitor = none;
  dsm_backends = record { name = lit "nas"; backend = nas } ∷ [];
  fetch = unreachable;
  times = times;
  force_github = false;
}

abbrev both : List Request
both = request ∷ request ∷ []

serve_all-IsWarned_example :
    IsFreshLog [] (serve_all [] 10 both state).0 (serve_all [] 10 both state).1.warned_images
    × ((r : Request) (c : DsmContainer)
        → In r both
        → Meets [] 10 r c
        → IsUnsourced [] c
        → Warned [] 10 both state c)
serve_all-IsWarned_example = serve_all-IsWarned [] 10 both state
