-- ===== src/Adapters/Dsm/Tests.antt =====
-- A DSM that has forgotten the session "old" and issues "new".
use homelab_api.Base.{
  Text, lit, ◌==◌, true, false, if◌then◌else◌, none, some, List, [], ◌∷◌, ◌≡◌, ◌≢◌, ◌↔◌, ◌⊎◌, refl,
  length,
}
use homelab_api.Base.Int.{pos}
use homelab_api.Base.Dict.{Dict, insert, lookup}
use homelab_api.Base.Result.{Result, ok}
use homelab_api.Adapters.Dsm.{
  DsmApiInfo, SynologyClient, new_synology_client, SynologyResponse, api_error, error_of,
  is_session_expired, Request, Web, Dsm, good, body, Fetched, mapping, ◌>>=◌, ◌>>◌, from_result,
  test, copy_into, raw_get, decoded,
}
use homelab_api.Adapters.Dsm.Session.{
  code_of, set_sid, login_locked, request_login, check_login, discover_auth, known_or_query,
  query_auth, remember_auth, ensure_session, call_with_sid, checked, is_expired, invalidate_session,
  invalidated, retry, call,
}
use homelab_api.Adapters.Dsm.Session.Laws.{Within, call-Within}
use homelab_api.Adapters.Dsm.Session.Recovery.{call_recovers}
use homelab_api.Adapters.Dsm.Discovery.{api_syno_docker_container, supports_api}
use homelab_api.Adapters.Dsm.Discovery.Laws.{
  discovers, pings, calls, unattempted, allows, run_all, observe_all, supports_api-run_all,
}
use homelab_api.Adapters.Dsm.Methods.{map_container_not_found}
use homelab_api.Adapters.Dsm.Methods.Laws.{map_container_not_found_lem}

-- `entry.cgi` tells the session "old" that it has expired.
abbrev answer : Request → Text
answer r =
    if r.endpoint == lit "entry.cgi"
    then elim (lookup (lit "_sid") r.params) [
      | none ↦ lit "expired"
      | some sid ↦ if sid == lit "old" then lit "expired" else lit "fine"
    ]
    else lit "fine"

abbrev fetch : List Request → Fetched
fetch [] = body []
fetch (r ∷ earlier) = body (answer r)

abbrev read : Text → Result SynologyResponse
read text =
    if text == lit "expired"
    then ok (record { success = false; payload = []; error = some (record { code = pos 119 }) })
    else ok (record { success = true; payload = text; error = none })

abbrev auth_infos : Text → Result (Dict DsmApiInfo)
auth_infos text = ok ((lit "SYNO.API.Auth", record { path = lit "auth.cgi"; max_ver = pos 7 }) ∷ [])

abbrev names : Text → Result (List Text)
names text = ok (api_syno_docker_container ∷ [])

abbrev new_sid : Text → Result Text
new_sid text = ok (lit "new")

abbrev web : Web
web = record {
  invalid = λ r. none;
  fetch = fetch;
  decode_response = read;
  decode_auth = auth_infos;
  decode_names = names;
  decode_sid = new_sid;
}

abbrev fresh_client : SynologyClient
fresh_client = new_synology_client (lit "nas") (lit "nas.local") (lit "u") (lit "p") []

abbrev start : Dsm
start = record { client = fresh_client; requests = [] }

abbrev logged_in : Text → Dsm
logged_in sid = set_sid sid start

abbrev api : Text
api = lit "SYNO.Core.System"

abbrev info : Text
info = lit "info"

abbrev one : Text
one = lit "1"

-- The call with the session "old", the login, and the call with the session "new".
abbrev rejected : Dsm
rejected = (call_with_sid web (lit "old") api info one [] (logged_in (lit "old"))).1

abbrev relogged : Dsm
relogged = (login_locked web (set_sid [] rejected)).1

abbrev answered : Dsm
answered = (call_with_sid web (lit "new") api info one [] relogged).1

recovers : (call web api info one [] (logged_in (lit "old"))).0 ≡ good (lit "fine")
unfolding call retry ensure_session login_locked request_login check_login discover_auth
    known_or_query query_auth remember_auth call_with_sid checked is_expired is_session_expired
    code_of invalidate_session invalidated raw_get decoded ◌>>=◌ ◌>>◌ mapping from_result test
    copy_into insert lookup ◌==◌ lit new_synology_client
recovers = refl

requests_sent : length (call web api info one [] (logged_in (lit "old"))).1.requests ≡ 4
unfolding call retry ensure_session login_locked request_login check_login discover_auth
    known_or_query query_auth remember_auth call_with_sid checked is_expired is_session_expired
    code_of invalidate_session invalidated raw_get decoded ◌>>=◌ ◌>>◌ mapping from_result test
    copy_into insert lookup ◌==◌ lit new_synology_client
requests_sent = refl

call-Within_example : Within 6 start (call web api info one [] start).1
call-Within_example = call-Within web api info one [] start

call_recovers_example :
    (call web api info one [] (logged_in (lit "old")) ≡ (good (lit "fine"), answered))
    × (answered.client.sid ≡ relogged.client.sid)
unfolding call retry ensure_session login_locked request_login check_login discover_auth
    known_or_query query_auth remember_auth call_with_sid checked is_expired is_session_expired
    code_of invalidate_session invalidated raw_get decoded ◌>>=◌ ◌>>◌ mapping from_result test
    copy_into insert lookup ◌==◌ lit new_synology_client
call_recovers_example =
    call_recovers web api info one [] (logged_in (lit "old")) rejected relogged answered
      (api_error api (pos 119)) (lit "fine") (λ e. cc) refl refl refl refl

supports_api-run_all_example :
    supports_api
      (run_all web (discovers ∷ pings (ok tt) ∷ calls api info one [] ∷ []) start).client
      api
    ≡ allows
        (observe_all web (discovers ∷ pings (ok tt) ∷ calls api info one [] ∷ []) start unattempted)
        api
supports_api-run_all_example =
    supports_api-run_all web (lit "nas") (lit "nas.local") (lit "u") (lit "p") []
      (discovers ∷ pings (ok tt) ∷ calls api info one [] ∷ []) api

map_container_not_found_lem_example :
    (((error_of (map_container_not_found (lit "web") (api_error api (pos 117)))).not_found ≡ true)
      ↔ (((other : Text) × (api_error api (pos 117) ≡ api_error other (pos 117)))
          ⊎ ((error_of (api_error api (pos 117))).not_found ≡ true)))
    × (((other : Text) → api_error api (pos 117) ≢ api_error other (pos 117))
        → map_container_not_found (lit "web") (api_error api (pos 117)) ≡ api_error api (pos 117))
map_container_not_found_lem_example =
    map_container_not_found_lem (lit "web") (api_error api (pos 117))
