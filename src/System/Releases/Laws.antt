-- ===== src/System/Releases/Laws.antt =====
-- What a refresh of the releases cache keeps, adds and replaces.
use homelab_api.Base.{
  Text, ◌==◌, ==_sound, ℕ, Bool, true, false, if◌then◌else◌, Option, some, none, List, [], ◌∷◌, ◌≡◌,
  ◌≢◌, refl, ap, ◌∙◌, arith, All, Distinct, inl, inr, Bool-cases, subst,
}
use homelab_api.Base.Result.{Result, ok, err}
use homelab_api.Base.Dict.{Dict, lookup, lookup-insert, keys, lookup-none}
use homelab_api.Base.Loop.{Warning}
use homelab_api.System.Releases.{
  GitHubRelease, ReleasesCache, copy, is_fresh, fetch_releases, fetched, cached_releases, refresh,
  get_or_fetch_releases, unless_fresh,
}

-- The first of two, or else the second.
abbrev pub or_else {ℓ} : {A : Type ℓ} → Option A → Option A → Option A
or_else none o = o
or_else (some a) o = some a

or_else-none {ℓ} : {A : Type ℓ} (o : Option A) → or_else o none ≡ o
or_else-none none = refl
or_else-none (some a) = refl

lookup-copy :
    {V : Type 0} (from to : Dict V) (k : Text)
    → lookup k (copy from to) ≡ or_else (lookup k from) (lookup k to)
unfolding copy lookup
lookup-copy [] to k = refl
lookup-copy ((j, v) ∷ from) to k =
    ground (arith, lookup-insert j k v (copy from to), lookup-copy from to k)

-- What the release host answers for a repository that is asked for.
abbrev pub answer : (Text → Text → Result GitHubRelease) → Text → Option Text → Option GitHubRelease
answer fetch repo none = none
answer fetch repo (some api_base) = elim (fetch repo api_base) [
  | ok release ↦ some release
  | err e ↦ none
]

module _ (fetch : Text → Text → Result GitHubRelease) where
  lookup-fetched :
      (repo k : Text) (r : Result GitHubRelease) (rest : Dict GitHubRelease × List Warning)
      → lookup k (fetched fetch repo r rest).0 ≡ (
          if repo == k
          then or_else (elim r [ ok x ↦ some x | err e ↦ none ]) (lookup k rest.0)
          else lookup k rest.0)
  unfolding fetched
  lookup-fetched repo k (ok release) rest = ground (arith, lookup-insert repo k release rest.0)
  lookup-fetched repo k (err e) rest = ground arith

  lookup-fetch_releases :
      (repos : Dict Text) (k : Text)
      → Distinct (keys repos)
      → lookup k (fetch_releases fetch repos).0 ≡ answer fetch k (lookup k repos)
  unfolding fetch_releases lookup
  lookup-fetch_releases [] k h = refl
  lookup-fetch_releases ((repo, api_base) ∷ repos) k (new, h) =
      lookup-fetched repo k (fetch repo api_base) (fetch_releases fetch repos)
      ∙ elim (Bool-cases (repo == k)) [
        | inr n ↦ rw (n, lookup) (lookup-fetch_releases repos k h)
        | inl y ↦ at_key (==_sound repo k y) y (lookup-fetch_releases repos k h)
      ]
    where
      at_key :
          repo ≡ k
          → (repo == k) ≡ true
          → lookup k (fetch_releases fetch repos).0 ≡ answer fetch k (lookup k repos)
          → (if repo == k
              then or_else
                  (answer fetch repo (some api_base))
                  (lookup k (fetch_releases fetch repos).0)
              else lookup k (fetch_releases fetch repos).0)
            ≡ answer fetch k (if repo == k then some api_base else lookup k repos)
      at_key e y ih =
          let fresh : All (λ j. k ≢ j) (keys repos) =
            subst (λ x. All (λ j. x ≢ j) (keys repos)) e new in
          let gone = ih ∙ ap (answer fetch k) (lookup-none k repos fresh) in
          rw y (
            ap (or_else (answer fetch repo (some api_base))) gone
            ∙ or_else-none (answer fetch repo (some api_base))
            ∙ ap (λ x. answer fetch x (some api_base)) e)

  -- After a refresh the release of every repository is what the host answered, where the
  -- repository was asked for and the request succeeded, and else the one that was cached before.
  pub lookup-refresh :
      (done : ℕ) (cache : Option ReleasesCache) (repos : Dict Text) (repo : Text)
      → Distinct (keys repos)
      → lookup repo (refresh fetch done cache repos).releases
        ≡ or_else (answer fetch repo (lookup repo repos)) (lookup repo (cached_releases cache))
  unfolding refresh lookup
  lookup-refresh done cache repos repo h =
      lookup-copy (fetch_releases fetch repos).0 (copy (cached_releases cache) []) repo
      ∙ rw (lookup-fetch_releases repos repo h, lookup-copy (cached_releases cache) [] repo)
          (ap (or_else (answer fetch repo (lookup repo repos)))
            (or_else-none (lookup repo (cached_releases cache))))

  or_else-some :
      (o : Option GitHubRelease) (x : GitHubRelease)
      → (r : GitHubRelease) × (or_else o (some x) ≡ some r)
  or_else-some none x = (x, refl)
  or_else-some (some r) x = (r, refl)

  -- The repository has a release in the cache.
  abbrev pub Known : Option ReleasesCache → Text → Type 0
  Known cache repo = (r : GitHubRelease) × (lookup repo (cached_releases cache) ≡ some r)

  refresh-Known :
      (done : ℕ) (cache : Option ReleasesCache) (repos : Dict Text) (repo : Text)
      → Distinct (keys repos)
      → Known cache repo
      → Known (refresh fetch done cache repos).cache repo
  unfolding refresh cached_releases
  refresh-Known done cache repos repo h (release, c) =
      let (r, e) = or_else-some (answer fetch repo (lookup repo repos)) release in
      (
        r,
        lookup-refresh done cache repos repo h
            ∙ ap (or_else (answer fetch repo (lookup repo repos))) c
            ∙ e,
      )

  unless_fresh-Known :
      (ttl now done : ℕ) (cache : Option ReleasesCache) (repos : Dict Text) (repo : Text)
      → Distinct (keys repos)
      → Known cache repo
      → Known (unless_fresh fetch ttl now done cache repos).cache repo
  unfolding unless_fresh
  unless_fresh-Known ttl now done none repos repo h known =
      refresh-Known done none repos repo h known
  unless_fresh-Known ttl now done (some cache) repos repo h known =
      elim (Bool-cases (is_fresh now ttl cache)) [
        | inl y ↦ rw (y, unless_fresh) known
        | inr n ↦ rw (n, unless_fresh) (refresh-Known done (some cache) repos repo h known)
      ]

  -- A repository that has a cached release still has one after any request, forced or not, whatever
  -- the release host answers; the repositories asked for have to differ.
  pub get_or_fetch_releases-Known :
      (ttl now done : ℕ) (cache : Option ReleasesCache) (repos : Dict Text) (force_github : Bool)
      (repo : Text)
      → Distinct (keys repos)
      → Known cache repo
      → Known (get_or_fetch_releases fetch ttl now done cache repos force_github).cache repo
  unfolding get_or_fetch_releases
  get_or_fetch_releases-Known ttl now done cache repos true repo h known =
      refresh-Known done cache repos repo h known
  get_or_fetch_releases-Known ttl now done cache repos false repo h known =
      unless_fresh-Known ttl now done cache repos repo h known
