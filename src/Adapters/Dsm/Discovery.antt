-- ===== src/Adapters/Dsm/Discovery.antt =====
-- internal/adapters/synology.go: DiscoverAPIs, failDiscovery, Ping and the capability checks. A
-- ping asks the host itself, outside the session, so it is an event of its own: what the host
-- answers to it is an argument.
pub mod Laws
use homelab_api.Base.{Text, lit, Bool, true, false, if◌then◌else◌, some, none, List, [], ◌∷◌}
use homelab_api.Base.Dict.{Dict, insert, flag}
use homelab_api.Base.Result.{plain, Error, Result, ok, err, wrap}
use homelab_api.Adapters.Dsm.{
  SynologyClient, Web, Dsm, Outcome, good, bad, Action, failure, SynologyResponse, raw_get,
}
use homelab_api.Adapters.Dsm.Session.{set_client}

abbrev pub api_syno_docker_container : Text
api_syno_docker_container = lit "SYNO.Docker.Container"

abbrev pub api_syno_backup_task : Text
api_syno_backup_task = lit "SYNO.Backup.Task"

unfoldable pub fail_discovery : Error → Action Error Unit
fail_discovery e d = (bad e, set_client (record d.client { discovery_failed = true }) d)

-- `for name := range apis { supported[name] = true }`
unfoldable pub supported_of : List Text → Dict Bool
supported_of [] = []
supported_of (name ∷ names) = insert name true (supported_of names)

abbrev pub discovered : List Text → Dsm → Dsm
discovered names d =
    set_client
      (record d.client { supported_apis = some (supported_of names); discovery_failed = false }) d

module _ (web : Web) where
  -- The names of the catalogue, or the error of the request or of its answer.
  unfoldable pub catalogue : Outcome Error SynologyResponse → Outcome Error (List Text)
  catalogue (bad e) = bad (wrap (plain (lit "discover APIs") ∷ []) e)
  catalogue (good resp) =
      if resp.success
      then elim (web.decode_names resp.payload) [
        | ok names ↦ good names
        | err e ↦ bad (wrap (plain (lit "discover APIs: parse response") ∷ []) e)
      ]
      else bad (failure (lit "discover APIs: request failed"))

  unfoldable pub conclude : Outcome Error (List Text) → Action Error Unit
  conclude (bad e) d = fail_discovery e d
  conclude (good names) d = (good tt, discovered names d)

  abbrev pub request_catalogue : Action Error SynologyResponse
  request_catalogue = raw_get web (lit "query.cgi") (
      (lit "api", lit "SYNO.API.Info")
      ∷ (lit "version", lit "1")
      ∷ (lit "method", lit "query")
      ∷ (lit "query", lit "all")
      ∷ [])

  unfoldable pub discover_apis : Action Error Unit
  discover_apis d = conclude (catalogue (request_catalogue d).0) (request_catalogue d).1

  -- `if failed { _ = c.DiscoverAPIs(ctx) }; return nil`
  unfoldable pub recheck : Bool → Action Error Unit
  recheck true d = (good tt, (discover_apis d).1)
  recheck false d = (good tt, d)

  -- `reached` is the outcome of the request that only Ping makes.
  unfoldable pub ping : Result {0} Unit → Action Error Unit
  ping (err e) d = (bad (wrap (plain (lit "synology unreachable") ∷ []) e), d)
  ping (ok u) d = recheck d.client.discovery_failed d

unfoldable pub supports_api : SynologyClient → Text → Bool
supports_api c api =
    if c.discovery_failed
    then false
    else elim c.supported_apis [ none ↦ true | some supported ↦ flag api supported ]

unfoldable pub supports_containers : SynologyClient → Bool
supports_containers c = supports_api c api_syno_docker_container

unfoldable pub supports_backups : SynologyClient → Bool
supports_backups c = supports_api c api_syno_backup_task
