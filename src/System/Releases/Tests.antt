-- ===== src/System/Releases/Tests.antt =====
-- A host that answers for one of two repositories.
use homelab_api.Base.{Text, lit, ◌==◌, if◌then◌else◌, none, [], ◌∷◌, ◌≡◌, Distinct, arith}
use homelab_api.Base.Result.{Result, ok, err, err_not_found}
use homelab_api.Base.Dict.{Dict, lookup, keys}
use homelab_api.System.Releases.{GitHubRelease, cached_releases, refresh}
use homelab_api.System.Releases.Laws.{or_else, answer, lookup-refresh}

abbrev release : GitHubRelease
release = record { tag_name = lit "v2"; html_url = lit "https://github.com/a/b"; published_at = 5 }

abbrev one_host : Text → Text → Result GitHubRelease
one_host repo api_base = if repo == lit "a/b" then ok release else err err_not_found

abbrev asked : Dict Text
asked =
    (lit "a/b", lit "https://api.github.com") ∷ (lit "x/longer", lit "https://api.github.com") ∷ []

asked-Distinct : Distinct (keys asked)
unfolding lit
asked-Distinct = ((λ e. ground arith, tt), (tt, tt))

lookup-refresh_example :
    lookup (lit "x/longer") (refresh one_host 9 none asked).releases
    ≡ or_else
        (answer one_host (lit "x/longer") (lookup (lit "x/longer") asked))
        (lookup (lit "x/longer") (cached_releases none))
lookup-refresh_example = lookup-refresh one_host 9 none asked (lit "x/longer") asked-Distinct
