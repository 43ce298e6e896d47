-- ===== src/System/Releases.antt =====
-- internal/system/github.go and the releases cache of internal/system/updates_service.go.
-- fetchLatestRelease is an HTTP request to the release host, the parameter `fetch`. The requests of
-- one refresh run concurrently, each for its own key of the result, so their order does not show;
-- refreshes run one at a time, under the lock. A time is its nanoseconds since some start.
pub mod Laws
mod Tests
use homelab_api.Base.{
  Text, lit, ℕ, ◌-◌, ltb, Bool, not, if◌then◌else◌, Option, some, none, List, [], ◌∷◌,
}
use homelab_api.Base.Result.{Result, ok, err}
use homelab_api.Base.Dict.{Dict, insert}
use homelab_api.Base.Loop.{Warning}

pub record GitHubRelease : Type 0 where
  pub tag_name : Text
  pub html_url : Text
  pub published_at : ℕ

pub record ReleasesCache : Type 0 where
  pub releases : Dict GitHubRelease
  pub fetched_at : ℕ

-- The releases that a request works with, the cache it leaves, and what it logs.
pub record Refreshed : Type 0 where
  pub releases : Dict GitHubRelease
  pub cache : Option ReleasesCache
  pub log : List Warning

-- maps.Copy(to, from)
pub copy {ℓ} : {V : Type ℓ} → Dict V → Dict V → Dict V
copy [] to = to
copy ((k, v) ∷ from) to = insert k v (copy from to)

-- `time.Since(s.ghCache.fetchedAt) < s.updateCacheTTL`
pub is_fresh : ℕ → ℕ → ReleasesCache → Bool
is_fresh now ttl cache = ltb (now - cache.fetched_at) ttl

unfoldable pub cached_releases : Option ReleasesCache → Dict GitHubRelease
cached_releases none = []
cached_releases (some cache) = cache.releases

module _ (fetch : Text → Text → Result GitHubRelease) where
  fetched :
      Text
      → Result GitHubRelease
      → Dict GitHubRelease × List Warning
      → Dict GitHubRelease × List Warning
  fetched repo (ok release) (results, log) = (insert repo release results, log)
  fetched repo (err e) (results, log) = (
    results,
    record { message = lit "failed to fetch latest release"; subject = repo; error = e } ∷ log,
  )

  pub fetch_releases : Dict Text → Dict GitHubRelease × List Warning
  unfolding fetched
  fetch_releases [] = ([], [])
  fetch_releases ((repo, api_base) ∷ repos) =
      fetched repo (fetch repo api_base) (fetch_releases repos)

  -- The fetch, and the merge into the previous cache; `done` is when it ends.
  pub refresh : ℕ → Option ReleasesCache → Dict Text → Refreshed
  unfolding fetch_releases cached_releases
  refresh done cache repos =
      let (fresh, log) = fetch_releases repos in
      let merged = copy fresh (copy (cached_releases cache) []) in
      record {
        releases = merged;
        cache = some (record { releases = merged; fetched_at = done });
        log = log;
      }

  unless_fresh : ℕ → ℕ → ℕ → Option ReleasesCache → Dict Text → Refreshed
  unless_fresh ttl now done none repos = refresh done none repos
  unless_fresh ttl now done (some cache) repos =
      if is_fresh now ttl cache
      then record { releases = cache.releases; cache = some cache; log = [] }
      else refresh done (some cache) repos

  -- getOrFetchReleases; `now` is when the cache is looked at.
  pub get_or_fetch_releases : ℕ → ℕ → ℕ → Option ReleasesCache → Dict Text → Bool → Refreshed
  unfolding unless_fresh
  get_or_fetch_releases ttl now done cache repos force_github =
      if not force_github then unless_fresh ttl now done cache repos else refresh done cache repos
