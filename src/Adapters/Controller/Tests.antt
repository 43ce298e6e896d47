-- ===== src/Adapters/Controller/Tests.antt =====
-- A controller whose cookie has expired: the first GET is refused, and the login is accepted.
use homelab_api.Base.{
  ◌≤◌, ◌<◌, Text, lit, ◌==◌, true, false, none, arith, List, [], ◌∷◌, ◌≡◌, refl, length,
}
use homelab_api.Base.Result.{Result, ok}
use homelab_api.Base.Action.{good, mapping, ◌>>=◌, ◌>>◌, from_result, test, pure}
use homelab_api.Adapters.Controller.{
  Request, post_login, get_path, Response, Network, Controller, new_unifi_client, attempt,
  attempt_unless, post_credentials, login_locked, login_unless, ensure_session, invalidate_session,
  set_logged_in, login_unless_key, maybe_login, do_request, unauthorized, reauthorize, read_body,
  get,
}
use homelab_api.Adapters.Controller.Laws.{Within, get-Within}
use homelab_api.Adapters.Controller.Recovery.{get_recovers}
use homelab_api.Adapters.Controller.Answers.{IsAnswered, get_good}

abbrev fetch : List Request → Result Response
fetch [] = ok (record { status = 404; body = ok [] })
fetch (post_login host user pass ∷ earlier) = ok (record { status = 200; body = ok [] })
fetch (get_path host path api_key ∷ []) = ok (record { status = 401; body = ok [] })
fetch (get_path host path api_key ∷ r ∷ earlier) =
    ok (record { status = 200; body = ok (lit "[]") })

abbrev network : Network
network = record { invalid = λ r. none; fetch = fetch }

abbrev expired : Controller
expired = record {
  client = record (new_unifi_client (lit "unifi") (lit "u") (lit "p")) { logged_in = true };
  requests = [];
}

abbrev decode : Text → Result Text
decode text = ok text

abbrev reloaded : Controller
reloaded = (get network decode (lit "/api/s/default/stat/device") expired).1

reloaded_requests : length reloaded.requests ≡ 3
unfolding get maybe_login login_unless_key ensure_session login_unless login_locked post_credentials
    attempt attempt_unless invalidate_session do_request unauthorized reauthorize read_body ◌>>=◌
    ◌>>◌ mapping from_result test pure lit ◌==◌ new_unifi_client
reloaded_requests = refl

get-Within_example : Within 4 expired reloaded
get-Within_example = get-Within network decode (lit "/api/s/default/stat/device") expired

get_good_example :
    (r : Response) × (text : Text) × IsAnswered network reloaded r
    × (200 ≤ r.status)
    × (r.status < 300)
    × (r.body ≡ ok text)
    × (decode text ≡ ok (lit "[]"))
unfolding get maybe_login login_unless_key ensure_session login_unless login_locked post_credentials
    attempt attempt_unless invalidate_session do_request unauthorized reauthorize read_body ◌>>=◌
    ◌>>◌ mapping from_result test pure lit ◌==◌ new_unifi_client
get_good_example =
    get_good network decode (lit "/api/s/default/stat/device") expired (lit "[]") reloaded refl

abbrev devices_path : Text
devices_path = lit "/api/s/default/stat/device"

abbrev refused : Controller
refused = (do_request network devices_path expired).1

abbrev renewed : Controller
renewed = (login_locked network (set_logged_in false refused)).1

get_recovers_example :
    get network decode devices_path expired
    ≡ (good (lit "[]"), (do_request network devices_path renewed).1)
unfolding login_locked post_credentials attempt attempt_unless do_request ◌>>=◌ ◌>>◌ mapping test
    lit ◌==◌ new_unifi_client
get_recovers_example =
    get_recovers network decode devices_path expired refused renewed
      (do_request network devices_path renewed).1 (record { status = 401; body = ok [] })
      (record { status = 200; body = ok (lit "[]") }) (lit "[]") (lit "[]") refl refl refl refl refl
      refl (ground arith) (ground arith) refl refl
